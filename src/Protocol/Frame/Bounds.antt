-- ===== src/Protocol/Frame/Bounds.antt =====
-- Which frames are written and which are accepted.
use kesharon.Prelude.{
  ℕ, ◌+◌, ◌≤◌, ◌≡◌, ◌≢◌, ◌⊎◌, inl, inr, refl, false, String, some, List, [], ◌∷◌, ◌++◌, arith,
  Result, ok, err, Option-cases, Bool-cases, length, ltb, if◌then◌else◌, map_err, ◌>>=◌, eq_iff,
}
use kesharon.Protocol.Error.{ProtocolError, malformed_json, frame_too_large}
use kesharon.Protocol.Request.{ClientRequest, requires_idempotency_key, lacks_key}
use kesharon.Protocol.Frame.{
  Json, max_frame_bytes, encode_payload, encode_frame, decode_frame, check_request,
  decode_client_request_frame,
}
use kesharon.Protocol.Frame.Words.{to_be_bytes}

-- The reply of `encode_frame` in terms of the JSON alone.
abbrev pub framed : Result (List ℕ) String → Result (List ℕ) ProtocolError
framed (err message) = err (malformed_json message)
framed (ok payload) =
    if ltb max_frame_bytes (length payload)
    then err (frame_too_large (length payload) max_frame_bytes)
    else ok (to_be_bytes (length payload) ++ payload)

module _ {A : Type 0} (json : Json A) where
  encode_parts :
      (r : Result (List ℕ) String) → (map_err malformed_json r >>= encode_payload) ≡ framed r
  unfolding encode_payload
  encode_parts (ok payload) = ground arith
  encode_parts (err message) = refl

  -- A message is framed exactly if its JSON has at most 8 MiB: the check against u32 never fails.
  pub encode_frame_lem : (a : A) → encode_frame json a ≡ framed (json.to_vec a)
  unfolding encode_frame
  encode_frame_lem a = encode_parts (json.to_vec a)

  -- A frame that is accepted is four bytes longer than its declared length, which is 8 MiB at most.
  pub decode_frame_bounds :
      (frame : List ℕ) {a : A}
      → decode_frame json frame ≡ ok a
      → (4 ≤ length frame) × (length frame ≤ max_frame_bytes + 4)
  unfolding decode_frame
  decode_frame_bounds [] h = cc
  decode_frame_bounds (b ∷ []) h = cc
  decode_frame_bounds (b ∷ c ∷ []) h = cc
  decode_frame_bounds (b ∷ c ∷ d ∷ []) h = cc
  decode_frame_bounds (b ∷ c ∷ d ∷ e ∷ body) h = ground arith

accepted_request :
    (r : Result ClientRequest ProtocolError) {request : ClientRequest}
    → (r >>= check_request) ≡ ok request
    → (request.protocol_version ≡ 1)
      × ((requires_idempotency_key request.method ≡ false)
          ⊎ ((key : String) × (request.idempotency_key ≡ some key) × (key ≢ "")))
unfolding check_request lacks_key
accepted_request (err e) h = cc
accepted_request (ok q) h = elim (Option-cases q.idempotency_key) [
  | inl e ↦ ground arith
  | inr (key, e) ↦ elim (Bool-cases (requires_idempotency_key q.method)) [
    | inl needs ↦ (ground arith, inr (key, ground arith, λ p. ground (arith, eq_iff key "")))
    | inr free ↦ ground arith
  ]
]

-- A request that `decode_client_request_frame` accepts has the protocol's version, and if it is a
-- mutation it carries an idempotency key that is not empty.
pub decoded_request :
    (json : Json ClientRequest) (frame : List ℕ) {request : ClientRequest}
    → decode_client_request_frame json frame ≡ ok request
    → (request.protocol_version ≡ 1)
      × ((requires_idempotency_key request.method ≡ false)
          ⊎ ((key : String) × (request.idempotency_key ≡ some key) × (key ≢ "")))
unfolding decode_client_request_frame
decoded_request json frame h = accepted_request (decode_frame json frame) h
