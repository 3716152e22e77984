-- ===== src/Daemon/Server/Once.antt =====
-- `Daemon::serve_local_connection` of crates/kesharon-daemon/src/lib.rs: one connection is accepted and
-- served on the same thread.
use kesharon.Prelude.{ℕ, ◌≡◌, refl, ◌⊎◌, inl, inr, String, Bool, List, [], Result, ok, err}
use kesharon.Application.Ports.{RepositoryService, IdGenerator, StateRepository}
use kesharon.Ipc.Accept.{
  IoError, Stream, Accepting, Accepted, returned, waiting, accept_with_timeout,
}
use kesharon.Ipc.Accept.Decided.{IsDecided, IsAccepted, accept_loop-IsAccepted}
use kesharon.Protocol.Event.{StreamMessage}
use kesharon.Protocol.Frame.{Json}
use kesharon.Protocol.Request.{ClientRequest}
use kesharon.Protocol.Response.{ServerResponse}
use kesharon.Protocol.Token.{LaunchToken}
use kesharon.Daemon.Session.State.{World}
use kesharon.Daemon.Server.{io}
use kesharon.Daemon.Server.Serve.{Serving, nothing_sent, over, blocked, serve_local_stream}
use kesharon.Daemon.Server.Connected.{IsServed, serve_local_stream-IsServed}

module _ {S : Type 0} (stream_id : String) (repository : StateRepository S)
    (service : RepositoryService) (ids : IdGenerator) (responses : Json ServerResponse)
    (messages : Json StreamMessage) (requests : Json ClientRequest) (token : LaunchToken) where
  module _ (closed : Bool) (coming : List StreamMessage) (w : World S) where
    unfoldable pub serve_accepted : Accepted Stream → Serving × World S
    unfolding serve_local_stream
    serve_accepted waiting = (nothing_sent blocked, w)
    serve_accepted (returned (err e) left) = (nothing_sent (over (err (io e.message))), w)
    serve_accepted (returned (ok stream) left) =
        serve_local_stream stream_id repository service ids responses messages requests token
          stream.answers closed stream.takings coming w

    unfoldable pub serve_local_connection_with_timeout :
        (timeout : ℕ) → Result (Unit {0}) IoError → List (Accepting Stream) → Serving × World S
    unfolding serve_accepted accept_with_timeout
    serve_local_connection_with_timeout timeout nonblocking accepting =
        serve_accepted (accept_with_timeout timeout nonblocking accepting)

    unfoldable pub serve_local_connection :
        Result (Unit {0}) IoError → List (Accepting Stream) → Serving × World S
    unfolding serve_local_connection_with_timeout
    serve_local_connection nonblocking accepting =
        serve_local_connection_with_timeout 5000 nonblocking accepting

    abbrev IsUntouched : Serving × World S → Type 0
    IsUntouched (s, w') = (s.sent ≡ []) × (w' ≡ w)

    -- A stream that the listener gave before anything else decided, with what it comes to.
    pub record IsServedFrom (accepting : List (Accepting Stream)) (r : Serving × World S)
        : Type 0 where
      pub stream : Stream
      pub left : List (Accepting Stream)
      pub accepted : IsDecided accepting (ok stream) left
      pub served :
          IsServed stream_id repository service ids responses messages requests token stream.answers
            closed stream.takings coming w r

    abbrev pub IsServedOnce : List (Accepting Stream) → Serving × World S → Type 0
    IsServedOnce accepting r = IsUntouched r ⊎ IsServedFrom accepting r

    accepted-IsServedOnce :
        (accepting : List (Accepting Stream)) (a : Accepted Stream)
        → IsAccepted accepting a
        → IsServedOnce accepting (serve_accepted a)
    unfolding serve_accepted
    accepted-IsServedOnce accepting waiting h = inl (refl, refl)
    accepted-IsServedOnce accepting (returned (err e) left) h = inl (refl, refl)
    accepted-IsServedOnce accepting (returned (ok stream) left) h = inr (record {
      stream = stream;
      left = left;
      accepted = h;
      served =
          serve_local_stream-IsServed stream_id repository service ids responses messages requests
            token stream.answers closed stream.takings coming w;
    })

    -- A daemon that serves one connection either sends nothing and leaves the session as it was, or
    -- serves the stream that the listener gave before any failure and any reading of the clock past the
    -- deadline, for which what serve_local_stream promises holds.
    pub serve_local_connection-IsServedOnce :
        (nonblocking : Result (Unit {0}) IoError) (accepting : List (Accepting Stream))
        → IsServedOnce accepting (serve_local_connection nonblocking accepting)
    unfolding serve_local_connection serve_local_connection_with_timeout accept_with_timeout
    serve_local_connection-IsServedOnce (err e) accepting = inl (refl, refl)
    serve_local_connection-IsServedOnce (ok _) accepting =
        accepted-IsServedOnce accepting _ (accept_loop-IsAccepted accepting)
