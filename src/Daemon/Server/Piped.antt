-- ===== src/Daemon/Server/Piped.antt =====
-- `Daemon::serve_connection` of crates/kesharon-daemon/src/lib.rs, over a reader and a writer.
-- `Read::read_exact` and `Write::write_all` are the timed loops, but that a call that moves no bytes is
-- a failure.
pub mod Tests
use mathlib.Core.List.{append-nil}
use kesharon.Prelude.{
  ℕ, ◌≡◌, ◌≤◌, refl, ap, String, Bool, false, Option, none, some, List, [], ◌++◌, map, arith,
  length, Result, ok, err, map_err,
}
use kesharon.Application.Ports.{RepositoryService, IdGenerator, StateRepository}
use kesharon.Ipc.{Answer, not_ready, failed, Taking, read_exact}
use kesharon.Ipc
use kesharon.Ipc.Deliver.{calls, write_all-IsWhole}
use kesharon.Ipc.Read.{content, has_end}
use kesharon.Ipc.Whole.{read_exact-content}
use kesharon.Ipc.Write.{has_end as has_end_of_writes}
use kesharon.Protocol.Frame.{Json, max_frame_bytes}
use kesharon.Protocol.Frame.Words.{to_be_bytes, from_be_bytes-to_be_bytes}
use kesharon.Protocol.Request.{ClientRequest}
use kesharon.Protocol.Response.{ServerResponse}
use kesharon.Protocol.Token.{LaunchToken}
use kesharon.Daemon.Session.State.{World}
use kesharon.Daemon.Server.{DaemonError, io, validate_frame_size, handle_authenticated_frame}
use kesharon.Daemon.Server.Connection.{Reading, finished, waits, panicked, after_read, declared_in}
use kesharon.Daemon.Server.Serve.{Serving, nothing_sent, over, blocked, broken, after_frame}
use kesharon.Daemon.Server.Transport.{valid_size}

-- `Ok(0)` of a reader is the end of the file.
abbrev pub end_of_file : Answer → Answer
end_of_file (not_ready late) = failed "failed to fill whole buffer"
end_of_file a = a

-- `Ok(0)` of a writer.
abbrev pub write_zero : Taking → Taking
write_zero (Ipc.Taking.not_ready late) = Ipc.Taking.failed "failed to write whole buffer"
write_zero t = t

unfoldable pub read_rest :
    (prefix : List ℕ) → ℕ → Result (Unit {0}) DaemonError → List Answer → Reading (List ℕ)
read_rest prefix declared (err e) answers = finished (err e) answers
read_rest prefix declared (ok _) answers =
    after_read (read_exact answers declared) (λ body rest. finished (ok (prefix ++ body)) rest)

-- The frame, prefix included.
unfoldable pub read_from : List Answer → Reading (List ℕ)
unfolding read_rest
read_from reader = after_read (read_exact (map end_of_file reader) 4) (λ prefix rest.
    read_rest prefix (declared_in prefix) (validate_frame_size (declared_in prefix)) rest)

module _ (payload more : List ℕ) where
  -- The frame that a reader begins with.
  abbrev pub framed : List ℕ
  framed = to_be_bytes (length payload) ++ payload

  body_read :
      (answers : List Answer)
      → content answers ≡ payload ++ more
      → has_end answers ≡ false
      → (rest : List Answer) × (read_rest
            (to_be_bytes (length payload))
            (length payload)
            (ok tt)
            answers
          ≡ finished (ok framed) rest)
  unfolding read_rest
  body_read answers c e =
      let (rest, r, _, _) = read_exact-content answers payload more c e in
      (rest, rw (r, read_rest) refl)

  read_from-framed :
      (reader : List Answer)
      → content (map end_of_file reader) ≡ to_be_bytes (length payload) ++ (payload ++ more)
      → has_end (map end_of_file reader) ≡ false
      → length payload ≤ max_frame_bytes
      → (rest : List Answer) × (read_from reader ≡ finished (ok framed) rest)
  unfolding read_from to_be_bytes
  read_from-framed reader c e l =
      let (rest, r, c', e') =
        read_exact-content (map end_of_file reader) (to_be_bytes (length payload)) (payload ++ more)
          c e in
      let (rest', h) = body_read rest c' e' in
      let size : declared_in (to_be_bytes (length payload)) ≡ length payload =
        from_be_bytes-to_be_bytes (length payload) (omega (arith, l)) in
      let valid : validate_frame_size (length payload) ≡ ok tt = valid_size (length payload) l in
      (rest', rw (r, read_from) (rw (size, valid) h))

module _ {S : Type 0} (stream_id : String) (repository : StateRepository S)
    (service : RepositoryService) (ids : IdGenerator) (requests : Json ClientRequest)
    (responses : Json ServerResponse) (token : LaunchToken) where
  module _ (presented : List ℕ) (writer : List Taking) (flush : Result (Unit {0}) String)
      (w : World S) where
    -- The frame has been handled; `none` is a panic.
    unfoldable pub write_reply : Option (Result (List ℕ) DaemonError × World S) → Serving × World S
    write_reply none = (nothing_sent broken, w)
    write_reply (some (err e, w')) = (nothing_sent (over (err e)), w')
    write_reply (some (ok response, w')) = (
      after_frame (map write_zero writer) (ok response)
          (λ rest. nothing_sent (over (map_err io flush))),
      w',
    )

    unfoldable pub serve_frame : Reading (List ℕ) → Serving × World S
    unfolding write_reply handle_authenticated_frame
    serve_frame waits = (nothing_sent blocked, w)
    serve_frame panicked = (nothing_sent broken, w)
    serve_frame (finished (err e) rest) = (nothing_sent (over (err e)), w)
    serve_frame (finished (ok frame) rest) = write_reply (
        handle_authenticated_frame stream_id repository service ids requests responses token w
          presented frame)

    unfoldable pub serve_connection : (reader : List Answer) → Serving × World S
    unfolding serve_frame read_from
    serve_connection reader = serve_frame (read_from reader)

    -- The writer takes all of the reply.
    abbrev pub HasRoom : Option (Result (List ℕ) DaemonError × World S) → Type 0
    HasRoom (some (ok response, v)) = length response ≤ calls (map write_zero writer)
    HasRoom _ = Unit

    -- What is sent, and what `serve_connection` returns, for a result of `handle_authenticated_frame`.
    abbrev pub delivered : Option (Result (List ℕ) DaemonError × World S) → Serving × World S
    delivered none = (record { ending = broken; sent = [] }, w)
    delivered (some (err e, v)) = (record { ending = over (err e); sent = [] }, v)
    delivered (some (ok response, v)) =
        (record { ending = over (map_err io flush); sent = response }, v)

    write_reply-delivered :
        (r : Option (Result (List ℕ) DaemonError × World S))
        → HasRoom r
        → has_end_of_writes (map write_zero writer) ≡ false
        → write_reply r ≡ delivered r
    unfolding write_reply
    write_reply-delivered none h e = refl
    write_reply-delivered (some (err x, v)) h e = refl
    write_reply-delivered (some (ok response, v)) h e =
        let (written, _, _) =
          write_all-IsWhole (map write_zero writer) response 0 (omega (arith, h)) e in
        rw written (
          ap (λ bytes. (record { ending = over (map_err io flush); sent = bytes }, v))
            (append-nil response))

    -- If a reader has a length within the limit and as many bytes behind it, in whatever pieces and
    -- without an end or a failure, and the writer takes the whole reply, in however many calls, then
    -- serve_connection does with this frame what handle_authenticated_frame does, and leaves the session
    -- as that does: it sends just the reply and returns what the flush returns; it sends nothing and
    -- returns the error, where there is one; and it panics where that panics.
    pub serve_connection-handle_authenticated_frame :
        (reader : List Answer) (payload more : List ℕ)
        → content (map end_of_file reader) ≡ to_be_bytes (length payload) ++ (payload ++ more)
        → has_end (map end_of_file reader) ≡ false
        → length payload ≤ max_frame_bytes
        → HasRoom (
            handle_authenticated_frame stream_id repository service ids requests responses token w
              presented
              (framed payload more))
        → has_end_of_writes (map write_zero writer) ≡ false
        → serve_connection reader
          ≡ delivered (
              handle_authenticated_frame stream_id repository service ids requests responses token w
                presented
                (framed payload more))
    unfolding serve_connection serve_frame
    serve_connection-handle_authenticated_frame reader payload more c e l room e' =
        let (rest, r) = read_from-framed payload more reader c e l in
        rw r (write_reply-delivered _ room e')
