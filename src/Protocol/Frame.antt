-- ===== src/Protocol/Frame.antt =====
-- Frames: a big-endian length of four bytes and the JSON of a message, as `encode_frame` and the
-- `decode_*_frame` functions of crates/kesharon-protocol/src/lib.rs write and read them. A byte is
-- a number below 256. `serde_json` is the parameter `Json`.
pub mod Words
pub mod RoundTrip
pub mod Bounds
pub mod Tests
use kesharon.Prelude.{
  ℕ, ◌+◌, ◌*◌, ◌-◌, ◌/◌, ◌%◌, ◌^◌, ◌≡◌, Bool, true, false, not, ◌&&◌, String, Option, none, some,
  List, [], ◌∷◌, ◌++◌, ltb, ◌==◌, if◌then◌else◌, length, Result, ok, err, ◌>>=◌, map_err,
}
use kesharon.Protocol.Error.{
  ProtocolError, incomplete_length_prefix, frame_too_large, frame_length_mismatch, malformed_json,
  unsupported_version, missing_idempotency_key, invalid_response_shape, invalid_event_sequence,
}
use kesharon.Protocol.Request.{ClientRequest, protocol_version, requires_idempotency_key, lacks_key}
use kesharon.Protocol.Response.{ServerResponse}
use kesharon.Protocol.Event.{StreamMessage, snapshot, event}
use Words.{to_be_bytes, from_be_bytes}

abbrev pub max_frame_bytes : ℕ
max_frame_bytes = 8 * 1024 * 1024

-- `serde_json::to_vec` and `serde_json::from_slice` at a message type. What is written is read back
-- as the same message.
pub record Json (A : Type 0) : Type 0 where
  pub to_vec : A → Result (List ℕ) String
  pub from_slice : List ℕ → Result A String
  pub from_slice-to_vec : (a : A) (bytes : List ℕ) → to_vec a ≡ ok bytes → from_slice bytes ≡ ok a

unfoldable pub encode_payload : List ℕ → Result (List ℕ) ProtocolError
unfolding to_be_bytes
encode_payload payload =
    if ltb max_frame_bytes (length payload)
    then err (frame_too_large (length payload) max_frame_bytes)
    else if ltb (length payload) (2 ^ 32)
    then ok (to_be_bytes (length payload) ++ payload)
    else err (frame_too_large (length payload) max_frame_bytes)

module _ {A : Type 0} (json : Json A) where
  unfoldable pub encode_frame : A → Result (List ℕ) ProtocolError
  unfolding encode_payload
  encode_frame message = do
    payload ← map_err malformed_json (json.to_vec message)
    encode_payload payload

  -- The frame after its prefix has been read.
  unfoldable pub decode_body : ℕ → List ℕ → Result A ProtocolError
  decode_body declared body =
      if ltb max_frame_bytes declared
      then err (frame_too_large declared max_frame_bytes)
      else if not (length body == declared)
      then err (frame_length_mismatch declared (length body))
      else map_err malformed_json (json.from_slice body)

  unfoldable pub decode_frame : List ℕ → Result A ProtocolError
  unfolding decode_body from_be_bytes
  decode_frame (a ∷ b ∷ c ∷ d ∷ body) = decode_body (from_be_bytes a b c d) body
  decode_frame _ = err incomplete_length_prefix

-- The checks behind the JSON, in the order of the source.
unfoldable pub check_request : ClientRequest → Result ClientRequest ProtocolError
check_request request =
    if not (request.protocol_version == protocol_version)
    then err (unsupported_version request.protocol_version)
    else if requires_idempotency_key request.method && lacks_key request.idempotency_key
    then err missing_idempotency_key
    else ok request

unfoldable pub decode_client_request_frame :
    Json ClientRequest → List ℕ → Result ClientRequest ProtocolError
unfolding decode_frame check_request
decode_client_request_frame json frame = do request ← decode_frame json frame; check_request request

abbrev pub is_some {ℓ} : {A : Type ℓ} → Option A → Bool
is_some none = false
is_some (some a) = true

abbrev same : Bool → Bool → Bool
same true b = b
same false b = not b

unfoldable pub check_response : ServerResponse → Result ServerResponse ProtocolError
check_response response =
    if not (response.protocol_version == protocol_version)
    then err (unsupported_version response.protocol_version)
    else if same (is_some response.result) (is_some response.error)
    then err invalid_response_shape
    else ok response

unfoldable pub decode_server_response_frame :
    Json ServerResponse → List ℕ → Result ServerResponse ProtocolError
unfolding decode_frame check_response
decode_server_response_frame json frame = do
  response ← decode_frame json frame
  check_response response

unfoldable pub check_message : StreamMessage → Result StreamMessage ProtocolError
check_message (snapshot s) = ok (snapshot s)
check_message (event e) =
    if not (e.protocol_version == protocol_version)
    then err (unsupported_version e.protocol_version)
    else if e.sequence == 0
    then err invalid_event_sequence
    else ok (event e)

unfoldable pub decode_stream_message_frame :
    Json StreamMessage → List ℕ → Result StreamMessage ProtocolError
unfolding decode_frame check_message
decode_stream_message_frame json frame = do message ← decode_frame json frame; check_message message
