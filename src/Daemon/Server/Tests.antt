-- ===== src/Daemon/Server/Tests.antt =====
-- The theorems on frames from a peer, with a codec for two requests and two responses.
use kesharon.Prelude.{ℕ, true, false, arith, ok, none, some, List, [], ◌∷◌}
use kesharon.Ipc.{Answer, arrives, not_ready, interrupted, unread}
use kesharon.Protocol.Frame.{Json}
use kesharon.Protocol.Frame.Tests.{
  codec, ClientRequest-discrete, ServerResponse-discrete, StreamMessage-discrete,
}
use kesharon.Protocol.Request.{ClientRequest, health, open_project}
use kesharon.Protocol.Response.{ServerResponse, ready, success}
use kesharon.Protocol.Response
use kesharon.Protocol.Token.{to_hex}
use kesharon.Protocol.Token.Tests.{token}
use kesharon.Daemon.Session.Cancel.{dispatch}
use kesharon.Daemon.Session.Answers.{AllSound}
use kesharon.Daemon.Session.Stored.{Keeps, dispatch-Keeps}
use kesharon.HashMap.{get-empty}
use kesharon.Daemon.Session.State.{CompletedMutation}
use kesharon.Daemon.Session.Restore.{new_session}
use kesharon.Daemon.Session.Tests.{ports}
use kesharon.Daemon.Session.Threads.Tests.{service, gen}
use kesharon.Protocol.Event.{StreamMessage, event, operation_cancelled}
use kesharon.Daemon.Server.Serve.{serve_local_stream}
use kesharon.Daemon.Server.Connected.{IsServed, serve_local_stream-IsServed}
use kesharon.Ipc.Accept.{Stream, connects, interrupted as accept_interrupted}
use kesharon.Daemon.Server.Once.{
  serve_local_connection, IsServedOnce, serve_local_connection-IsServedOnce,
}
use kesharon.Daemon.Server.{handle_authenticated_frame}
use kesharon.Daemon.Server.Frames.{IsHandled, handle_authenticated_frame-IsHandled}

abbrev opening : ClientRequest
opening = record {
  protocol_version = 1;
  request_id = "r1";
  method = open_project "/work";
  idempotency_key = some "k1";
}

abbrev checking : ClientRequest
checking = record {
  protocol_version = 1;
  request_id = "r2";
  method = health;
  idempotency_key = none;
}

abbrev pub requests : Json ClientRequest
requests = codec ClientRequest-discrete opening checking

abbrev pub responses : Json ServerResponse
responses =
    codec ServerResponse-discrete (success "r2" (Response.health ready 1))
      (success "r1" (Response.health ready 1))

pub new_session-AllSound : AllSound (new_session {S = Unit {0}}).memory.completed
new_session-AllSound k c h = ground (arith, h, get-empty {V = CompletedMutation} k)

dispatch-Keeps_example : Keeps "r1" (dispatch "s" ports service gen new_session opening)
dispatch-Keeps_example =
    dispatch-Keeps "s" ports service gen new_session opening new_session-AllSound

abbrev happened : StreamMessage
happened = event (record {
  protocol_version = 1;
  stream_id = "s";
  sequence = 1;
  payload = operation_cancelled "r1";
})

abbrev messages : Json StreamMessage
messages = codec StreamMessage-discrete happened happened

abbrev presented : List ℕ
presented = to_hex token.bytes

abbrev frame : List ℕ
frame = 0 ∷ 0 ∷ 0 ∷ 1 ∷ 1 ∷ []

handle_authenticated_frame-IsHandled_example :
    IsHandled "s" ports service gen requests responses token new_session presented frame (
      handle_authenticated_frame "s" ports service gen requests responses token new_session
        presented frame)
handle_authenticated_frame-IsHandled_example =
    handle_authenticated_frame-IsHandled "s" ports service gen requests responses token new_session
      presented frame new_session-AllSound

-- The token in one piece, and the frame after a wait and in two.
abbrev answers : List Answer
answers =
    unread presented
      (not_ready false ∷ interrupted ∷ arrives 0 (0 ∷ []) ∷ arrives 0 (1 ∷ 1 ∷ []) ∷ [])

abbrev stream : Stream
stream = record { connection = 1; answers = answers; takings = [] }

serve_local_stream-IsServed_example :
    IsServed "s" ports service gen responses messages requests token answers true [] [] new_session
      (serve_local_stream "s" ports service gen responses messages requests token answers true [] []
        new_session)
serve_local_stream-IsServed_example =
    serve_local_stream-IsServed "s" ports service gen responses messages requests token answers true
      [] [] new_session

serve_local_connection-IsServedOnce_example :
    IsServedOnce "s" ports service gen responses messages requests token true [] new_session
      (accept_interrupted ∷ connects stream (ok tt) ∷ [])
      (serve_local_connection "s" ports service gen responses messages requests token true []
        new_session
        (ok tt)
        (accept_interrupted ∷ connects stream (ok tt) ∷ []))
serve_local_connection-IsServedOnce_example =
    serve_local_connection-IsServedOnce "s" ports service gen responses messages requests token true
      [] new_session (ok tt) (accept_interrupted ∷ connects stream (ok tt) ∷ [])
