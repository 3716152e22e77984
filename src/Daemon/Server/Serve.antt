-- ===== src/Daemon/Server/Serve.antt =====
-- Serving a local stream, crates/kesharon-daemon/src/lib.rs.
use kesharon.Prelude.{
  ℕ, String, Bool, Option, none, some, List, [], ◌∷◌, ◌++◌, if◌then◌else◌, Result, ok, err,
}
use kesharon.Application.Ports.{RepositoryService, IdGenerator, StateRepository}
use kesharon.Ipc.{Answer, Taking, Written, write_all}
use kesharon.Protocol.Error.{ProtocolError}
use kesharon.Protocol.Event.{StreamMessage, snapshot, WorkspaceSnapshot}
use kesharon.Protocol.Frame.{Json, encode_frame}
use kesharon.Protocol.Request.{ClientRequest, RequestMethod, subscribe_events}
use kesharon.Protocol.Response.{ServerResponse}
use kesharon.Protocol.Token.{LaunchToken}
use kesharon.Daemon.Session.State.{SessionError, state_unavailable, sequence_exhausted, World}
use kesharon.Daemon.Session.Cancel.{subscribe}
use kesharon.Daemon.Server.{DaemonError, io, protocol, session, busy_response, dispatch_request}
use kesharon.Daemon.Server.Connection.{
  Reading, finished, waits, panicked, read_authenticated_request,
}

-- What has become of the thread that serves a connection.
pub data Ending : Type 0 where
  over : Result (Unit {0}) DaemonError → Ending
  blocked broken : Ending

-- The thread, and all that it has written to the stream.
pub record Serving : Type 0 where
  pub ending : Ending
  pub sent : List ℕ

abbrev pub nothing_sent : Ending → Serving
nothing_sent ending = record { ending = ending; sent = [] }

abbrev pub after_outcome : Option (Result (Unit {0}) String) → List ℕ → Serving → Serving
after_outcome none bytes rest = record { ending = blocked; sent = bytes }
after_outcome (some (err message)) bytes rest = record {
  ending = over (err (io message));
  sent = bytes;
}
after_outcome (some (ok _)) bytes rest = record rest { sent = bytes ++ rest.sent }

-- A write, and what comes after it where it has succeeded.
abbrev pub after_write : Written → (List Taking → Serving) → Serving
after_write w f = after_outcome w.outcome w.bytes (f w.rest)

-- A frame is written, unless its encoding failed.
abbrev pub after_frame :
    List Taking → Result (List ℕ) ProtocolError → (List Taking → Serving) → Serving
after_frame takings (err e) f = nothing_sent (over (err (protocol e)))
after_frame takings (ok frame) f = after_write (write_all takings frame) f

abbrev pub nothing_more : List Taking → Serving
nothing_more takings = nothing_sent (over (ok tt))

-- `format!("{error:?}")`
abbrev pub debug : SessionError → String
debug state_unavailable = "StateUnavailable"
debug sequence_exhausted = "SequenceExhausted"

-- `while let Ok(message) = subscription.receiver.recv()`, over all the messages that come; the
-- receiver then fails if the channel is closed, and waits if not.
unfoldable pub stream_events :
    Json StreamMessage → (closed : Bool) → List Taking → List StreamMessage → Serving
stream_events messages closed takings [] =
    if closed then nothing_more takings else nothing_sent blocked
stream_events messages closed takings (m ∷ ms) =
    after_frame takings (encode_frame messages m)
      (λ takings'. stream_events messages closed takings' ms)

-- The frames of a subscription, of which the first two are encoded before any is written.
unfoldable pub write_subscription :
    Json StreamMessage
    → (closed : Bool) → List Taking
    → List StreamMessage
    → (ready first : Result (List ℕ) ProtocolError) → Serving
unfolding stream_events
write_subscription messages closed takings coming (err e) first =
    nothing_sent (over (err (protocol e)))
write_subscription messages closed takings coming (ok ready) (err e) =
    nothing_sent (over (err (protocol e)))
write_subscription messages closed takings coming (ok ready) (ok first) =
    after_write (write_all takings ready) (λ takings'.
      after_write (write_all takings' first)
        (λ takings''. stream_events messages closed takings'' coming))

module _ {S : Type 0} (stream_id : String) (repository : StateRepository S)
    (service : RepositoryService) (ids : IdGenerator) (responses : Json ServerResponse)
    (messages : Json StreamMessage) where
  -- The result of `subscribe` is known.
  unfoldable pub after_subscribe :
      (closed : Bool)
      → List Taking
      → List StreamMessage
      → ClientRequest
      → Result WorkspaceSnapshot SessionError × World S
      → Serving × World S
  unfolding write_subscription dispatch_request
  after_subscribe closed takings coming request (err e, w) =
      (nothing_sent (over (err (session (debug e)))), w)
  after_subscribe closed takings coming request (ok s, w) =
      let (response, w') = dispatch_request stream_id repository service ids w request in
      (
        write_subscription messages closed takings coming (encode_frame responses response)
            (encode_frame messages (snapshot s)),
        w',
      )

  -- `serve_subscription`
  unfoldable pub serve_subscription :
      (closed : Bool)
      → List Taking
      → List StreamMessage
      → World S
      → ClientRequest
      → Serving × World S
  unfolding after_subscribe subscribe
  serve_subscription closed takings coming w request =
      after_subscribe closed takings coming request (subscribe stream_id w)

  unfoldable pub serve_reply : List Taking → World S → ClientRequest → Serving × World S
  unfolding dispatch_request
  serve_reply takings w request =
      let (response, w') = dispatch_request stream_id repository service ids w request in
      (after_frame takings (encode_frame responses response) nothing_more, w')

  unfoldable pub serve_method :
      (closed : Bool)
      → List Taking
      → List StreamMessage
      → World S
      → ClientRequest
      → RequestMethod
      → Serving × World S
  unfolding serve_subscription serve_reply
  serve_method closed takings coming w request subscribe_events =
      serve_subscription closed takings coming w request
  serve_method closed takings coming w request _ = serve_reply takings w request

  unfoldable pub serve_read :
      (closed : Bool)
      → List Taking
      → List StreamMessage
      → World S
      → Reading ClientRequest
      → Serving × World S
  unfolding serve_method
  serve_read closed takings coming w waits = (nothing_sent blocked, w)
  serve_read closed takings coming w panicked = (nothing_sent broken, w)
  serve_read closed takings coming w (finished (err e) rest) = (nothing_sent (over (err e)), w)
  serve_read closed takings coming w (finished (ok request) rest) =
      serve_method closed takings coming w request request.method

  -- `serve_local_stream`. The messages of a subscription are those that its channel brings while the
  -- thread runs.
  unfoldable pub serve_local_stream :
      Json ClientRequest
      → LaunchToken
      → List Answer
      → (closed : Bool) → List Taking
      → List StreamMessage
      → World S
      → Serving × World S
  unfolding serve_read read_authenticated_request
  serve_local_stream requests token answers closed takings coming w =
      serve_read closed takings coming w (read_authenticated_request requests token answers)

module _ (requests : Json ClientRequest) (responses : Json ServerResponse) where
  unfoldable pub reject_read : List Taking → Reading ClientRequest → Serving
  unfolding busy_response
  reject_read takings waits = nothing_sent blocked
  reject_read takings panicked = nothing_sent broken
  reject_read takings (finished (err e) rest) = nothing_sent (over (err e))
  reject_read takings (finished (ok request) rest) =
      after_frame takings (encode_frame responses (busy_response request.request_id)) nothing_more

  -- `reject_busy_connection`
  unfoldable pub reject_busy_connection : LaunchToken → List Answer → List Taking → Serving
  unfolding reject_read read_authenticated_request
  reject_busy_connection token answers takings =
      reject_read takings (read_authenticated_request requests token answers)
