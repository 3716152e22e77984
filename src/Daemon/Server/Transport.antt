-- ===== src/Daemon/Server/Transport.antt =====
-- A request that is sent arrives, in whatever pieces its bytes come.
use kesharon.Prelude.{
  ℕ, ◌≤◌, ◌≡◌, refl, ap, sym, ◌∙◌, String, true, false, Option, some, List, ◌++◌, arith, length, ok,
  map_err, bind-ok,
}
use kesharon.Ipc.{Answer, returned, read_exact}
use kesharon.Ipc.Read.{content, has_end}
use kesharon.Ipc.Whole.{read_exact-content}
use kesharon.Protocol.Error.{malformed_json}
use kesharon.Protocol.Frame.{
  Json, max_frame_bytes, encode_payload, encode_frame, decode_client_request_frame,
}
use kesharon.Protocol.Frame.Words.{to_be_bytes, from_be_bytes-to_be_bytes}
use kesharon.Protocol.Frame.RoundTrip.{request_round_trip}
use kesharon.Protocol.Request.{ClientRequest, RequestMethod, new_request}
use kesharon.Protocol.Token.{LaunchToken, matches_hex}
use kesharon.Daemon.Server.{validate_frame_size}
use kesharon.Daemon.Server.Connection.{
  finished, is_utf8, check_token, read_body, declared_in, read_prefix, read_authenticated_request,
}

-- A frame is its length in four bytes and a payload within the limit.
encode_payload-ok :
    (payload : List ℕ) {frame : List ℕ}
    → encode_payload payload ≡ ok frame
    → (frame ≡ to_be_bytes (length payload) ++ payload) × (length payload ≤ max_frame_bytes)
unfolding encode_payload
encode_payload-ok payload h = ground (arith, h)

pub encode_frame-ok :
    {A : Type 0} (json : Json A) (a : A) {frame : List ℕ}
    → encode_frame json a ≡ ok frame
    → (payload : List ℕ) × (frame ≡ to_be_bytes (length payload) ++ payload)
      × (length payload ≤ max_frame_bytes)
unfolding encode_frame
encode_frame-ok json a h =
    let (payload, written, made) =
      bind-ok (map_err malformed_json (json.to_vec a)) encode_payload h in
    let (shape, fits) = encode_payload-ok payload made in (payload, shape, fits)

pub valid_size : (n : ℕ) → n ≤ max_frame_bytes → validate_frame_size n ≡ ok tt
unfolding validate_frame_size
valid_size n h = ground arith

module _ (requests : Json ClientRequest) (launch_token : LaunchToken) (token : List ℕ)
    (request : ClientRequest) (matched : matches_hex launch_token token ≡ some true) where
  body_read :
      (prefix payload more : List ℕ) (answers : List Answer)
      → content answers ≡ payload ++ more
      → has_end answers ≡ false
      → decode_client_request_frame requests (prefix ++ payload) ≡ ok request
      → (rest : List Answer) × (read_body requests launch_token token prefix
            (length payload)
            (ok tt)
            answers
          ≡ finished (ok request) rest)
  unfolding read_body check_token
  body_read prefix payload more answers c e d =
      let (rest, r, _, _) = read_exact-content answers payload more c e in
      (rest, rw (r, read_body) (rw (matched, check_token) (rw d refl)))

  prefix_read :
      (payload more : List ℕ) (answers : List Answer)
      → content answers ≡ to_be_bytes (length payload) ++ (payload ++ more)
      → has_end answers ≡ false
      → length payload ≤ max_frame_bytes
      → decode_client_request_frame requests (to_be_bytes (length payload) ++ payload) ≡ ok request
      → (rest : List Answer) × (read_prefix requests launch_token token answers
          ≡ finished (ok request) rest)
  unfolding read_prefix to_be_bytes
  prefix_read payload more answers c e l d =
      let (rest, r, c', e') =
        read_exact-content answers (to_be_bytes (length payload)) (payload ++ more) c e in
      let (rest', h) = body_read (to_be_bytes (length payload)) payload more rest c' e' d in
      let size : declared_in (to_be_bytes (length payload)) ≡ length payload =
        from_be_bytes-to_be_bytes (length payload) (omega (arith, l)) in
      let valid : validate_frame_size (length payload) ≡ ok tt = valid_size (length payload) l in
      (rest', rw (r, read_prefix) (rw (size, valid) h))

  token_read :
      (payload more : List ℕ) (answers : List Answer)
      → length token ≡ 64
      → is_utf8 token ≡ true
      → content answers ≡ token ++ (to_be_bytes (length payload) ++ (payload ++ more))
      → has_end answers ≡ false
      → length payload ≤ max_frame_bytes
      → decode_client_request_frame requests (to_be_bytes (length payload) ++ payload) ≡ ok request
      → (rest : List Answer) × (read_authenticated_request requests launch_token answers
          ≡ finished (ok request) rest)
  unfolding read_authenticated_request
  token_read payload more answers n u c e l d =
      let (rest, r, c', e') =
        read_exact-content answers token (to_be_bytes (length payload) ++ (payload ++ more)) c e in
      let r64 : read_exact answers 64 ≡ returned (ok token) rest =
        ap (λ k. read_exact answers k) (sym n) ∙ r in
      let (rest', h) = prefix_read payload more rest c' e' l d in
      (rest', rw (r64, read_authenticated_request) (rw u h))

-- If a peer sends the 64 bytes of a token that the daemon accepts and then the frame of a request that
-- `ClientRequest::new` made, then the daemon reads just this request, in whatever pieces the bytes
-- come and however often a read has to wait, if no call fails and no wait ends past the deadline.
pub read_authenticated_request-encode_frame :
    (requests : Json ClientRequest) (launch_token : LaunchToken) (token : List ℕ) (id : String)
    (method : RequestMethod) (key : Option String) (request : ClientRequest) (frame more : List ℕ)
    (answers : List Answer)
    → new_request id method key ≡ ok request
    → encode_frame requests request ≡ ok frame
    → length token ≡ 64
    → is_utf8 token ≡ true
    → matches_hex launch_token token ≡ some true
    → content answers ≡ token ++ (frame ++ more)
    → has_end answers ≡ false
    → (rest : List Answer) × (read_authenticated_request requests launch_token answers
        ≡ finished (ok request) rest)
unfolding to_be_bytes
read_authenticated_request-encode_frame requests launch_token token id method key request frame more
      answers made sent n u m c e =
    let (payload, shape, fits) = encode_frame-ok requests request sent in
    token_read requests launch_token token request m payload more answers n u
      (c ∙ ap (λ f. token ++ (f ++ more)) shape) e fits
      (ap (λ f. decode_client_request_frame requests f) (sym shape)
        ∙ request_round_trip requests id method key frame made sent)
