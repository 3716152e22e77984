-- ===== src/Daemon/Runtime/Accepting/Stops.antt =====
-- A peer without the token that ends the accept loop.
use kesharon.Prelude.{
  ℕ, ◌≡◌, ◌≤◌, refl, ap, sym, ◌∙◌, Bool, true, false, none, List, [], ◌∷◌, ◌++◌, arith, length, ok,
}
use kesharon.Ipc.{Answer, returned, read_exact}
use kesharon.Ipc.Accept.{Stream, Accepting, connects, accept_loop, accept_with_timeout}
use kesharon.Ipc.Read.{content, has_end}
use kesharon.Ipc.Whole.{read_exact-content}
use kesharon.Protocol.Frame.{Json, max_frame_bytes}
use kesharon.Protocol.Frame.Words.{to_be_bytes, from_be_bytes-to_be_bytes}
use kesharon.Protocol.Request.{ClientRequest}
use kesharon.Protocol.Response.{ServerResponse}
use kesharon.Protocol.Token.{LaunchToken, parse_hex, matches_hex}
use kesharon.Daemon.Runtime.{Runtime, max_active_connections, acquire}
use kesharon.Daemon.Server.{validate_frame_size}
use kesharon.Daemon.Server.Connection.{
  panicked as read_panicked, is_utf8, check_token, read_body, declared_in, read_prefix,
  read_authenticated_request,
}
use kesharon.Daemon.Server.Serve.{reject_read, reject_busy_connection}
use kesharon.Daemon.Server.Transport.{valid_size}
use kesharon.Daemon.Runtime.Accepting.{Turn, Course, panicked, leave_all, admit, after_accept, run}

all_taken : acquire max_active_connections ≡ none
unfolding acquire
all_taken = refl

module _ (requests : Json ClientRequest) (responses : Json ServerResponse)
    (launch_token : LaunchToken) where
  module _ (token payload more : List ℕ) (panics : parse_hex token ≡ none) where
    body_read :
        (prefix : List ℕ) (answers : List Answer)
        → content answers ≡ payload ++ more
        → has_end answers ≡ false
        → read_body requests launch_token token prefix (length payload) (ok tt) answers
          ≡ read_panicked
    unfolding read_body check_token matches_hex
    body_read prefix answers c e =
        let (rest, r, _, _) = read_exact-content answers payload more c e in
        rw (r, read_body) (rw (panics, check_token) refl)

    prefix_read :
        (answers : List Answer)
        → content answers ≡ to_be_bytes (length payload) ++ (payload ++ more)
        → has_end answers ≡ false
        → length payload ≤ max_frame_bytes
        → read_prefix requests launch_token token answers ≡ read_panicked
    unfolding read_prefix to_be_bytes
    prefix_read answers c e l =
        let (rest, r, c', e') =
          read_exact-content answers (to_be_bytes (length payload)) (payload ++ more) c e in
        let h = body_read (to_be_bytes (length payload)) rest c' e' in
        let size : declared_in (to_be_bytes (length payload)) ≡ length payload =
          from_be_bytes-to_be_bytes (length payload) (omega (arith, l)) in
        let valid : validate_frame_size (length payload) ≡ ok tt = valid_size (length payload) l in
        rw (r, read_prefix) (rw (size, valid) h)

    token_read :
        (answers : List Answer)
        → length token ≡ 64
        → is_utf8 token ≡ true
        → content answers ≡ token ++ (to_be_bytes (length payload) ++ (payload ++ more))
        → has_end answers ≡ false
        → length payload ≤ max_frame_bytes
        → read_authenticated_request requests launch_token answers ≡ read_panicked
    unfolding read_authenticated_request
    token_read answers n u c e l =
        let (rest, r, c', e') =
          read_exact-content answers token (to_be_bytes (length payload) ++ (payload ++ more)) c
            e in
        let r64 : read_exact answers 64 ≡ returned (ok token) rest =
          ap (λ k. read_exact answers k) (sym n) ∙ r in
        rw (r64, read_authenticated_request) (rw u (prefix_read rest c' e' l))

  turned_away-panics :
      (x : Runtime) (stream : Stream) (spawned : Bool) (f : Runtime → Course)
      → read_authenticated_request requests launch_token stream.answers ≡ read_panicked
      → (admit requests responses launch_token x stream spawned none f).looping ≡ panicked
  unfolding admit reject_busy_connection reject_read
  turned_away-panics x stream true f h = rw h refl
  turned_away-panics x stream false f h = rw h refl

  -- A peer that connects while eight connections are served ends the accept loop with a panic, without
  -- knowing the token: it sends 64 bytes of UTF-8 for which parse_hex panics, and then a length within
  -- the limit with as many bytes behind it.
  pub run-panics :
      (x : Runtime) (stream : Stream) (spawned : Bool) (others : List (Accepting Stream))
      (turns : List Turn) (token payload more : List ℕ)
      → x.active_connections ≡ max_active_connections
      → parse_hex token ≡ none
      → length token ≡ 64
      → is_utf8 token ≡ true
      → content stream.answers ≡ token ++ (to_be_bytes (length payload) ++ (payload ++ more))
      → has_end stream.answers ≡ false
      → length payload ≤ max_frame_bytes
      → (run requests responses launch_token x [] (
          record {
            ended = [];
            nonblocking = ok tt;
            answers = connects stream (ok tt) ∷ others;
            spawned = spawned;
          }
          ∷ turns)).looping
        ≡ panicked
  unfolding run leave_all accept_with_timeout accept_loop after_accept
  run-panics x stream spawned others turns token payload more eight panics n u c e l =
      let full : acquire x.active_connections ≡ none = ap acquire eight ∙ all_taken in
      rw full (
        turned_away-panics x stream spawned _
          (token_read token payload more panics stream.answers n u c e l))
