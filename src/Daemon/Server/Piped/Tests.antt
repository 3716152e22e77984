-- ===== src/Daemon/Server/Piped/Tests.antt =====
-- `serve_connection` and `reject_busy_connection` with a request for the daemon's health.
use kesharon.Prelude.{ℕ, ◌≡◌, refl, arith, none, some, List, [], ◌∷◌, ok}
use kesharon.Ipc.{Answer, unread, arrives, interrupted, Taking, takes}
use kesharon.Protocol.Frame.{Json, decode_client_request_frame}
use kesharon.Protocol.Frame.RoundTrip.{request_round_trip}
use kesharon.Protocol.Frame.Words.{to_be_bytes}
use kesharon.Protocol.Frame.Tests.{
  codec, first_frame, ClientRequest-discrete, ServerResponse-discrete,
}
use kesharon.Protocol.Request.{ClientRequest, health, new_request}
use kesharon.Protocol.Response.{ServerResponse, ready, success, failure, server_busy}
use kesharon.Protocol.Response
use kesharon.Protocol.Token.{to_hex}
use kesharon.Protocol.Token.Tests.{token}
use kesharon.Daemon.Session.State.{World}
use kesharon.Daemon.Session.Restore.{new_session}
use kesharon.Daemon.Session.Tests.{ports}
use kesharon.Daemon.Session.Threads.Tests.{service, gen}
use kesharon.Daemon.Start.Launch.{to_hex-IsAccepted}
use kesharon.Daemon.Server.{
  dispatch_by, dispatch_request, answer_decoded, handle_authenticated_frame,
}
use kesharon.Host.Remote.{IsAccepted}
use kesharon.Daemon.Server.Busy.{reject_busy_connection-busy_response}
use kesharon.Daemon.Server.Serve.{over, reject_busy_connection}
use kesharon.Daemon.Server.Piped.{
  HasRoom, delivered, serve_connection, serve_connection-handle_authenticated_frame,
}

abbrev checking : ClientRequest
checking = record {
  protocol_version = 1;
  request_id = "r2";
  method = health;
  idempotency_key = none;
}

abbrev healthy : ServerResponse
healthy = success "r2" (Response.health ready 1)

abbrev requests : Json ClientRequest
requests = codec ClientRequest-discrete checking checking

abbrev responses : Json ServerResponse
responses = codec ServerResponse-discrete healthy healthy

abbrev presented : List ℕ
presented = to_hex token.bytes

abbrev frame : List ℕ
frame = 0 ∷ 0 ∷ 0 ∷ 1 ∷ 1 ∷ []

-- The frame in three pieces, and a writer that takes it byte by byte.
abbrev reader : List Answer
reader = arrives 0 (0 ∷ []) ∷ interrupted ∷ arrives 0 (1 ∷ []) ∷ arrives 1 [] ∷ []

abbrev writer : List Taking
writer = takes 0 ∷ takes 0 ∷ takes 0 ∷ takes 0 ∷ takes 0 ∷ []

abbrev world : World (Unit {0})
world = new_session

made : new_request "r2" health none ≡ ok checking
unfolding new_request
made = refl

decoded : decode_client_request_frame requests frame ≡ ok checking
decoded =
    request_round_trip requests "r2" health none {request = checking} frame made
      (first_frame ClientRequest-discrete checking checking)

answered :
    answer_decoded "s" ports service gen requests responses world (ok checking) ≡ (ok frame, world)
unfolding answer_decoded dispatch_request dispatch_by
answered = rw (first_frame ServerResponse-discrete healthy healthy) refl

accepted : IsAccepted token presented
accepted = to_hex-IsAccepted token.bytes (omega arith) refl

handled :
    handle_authenticated_frame "s" ports service gen requests responses token world presented frame
    ≡ some (ok frame, world)
unfolding handle_authenticated_frame
handled = rw (accepted.matched, handle_authenticated_frame) (rw (decoded) (rw answered refl))

room : HasRoom "s" ports service gen requests responses token presented writer (ok tt) world (
    handle_authenticated_frame "s" ports service gen requests responses token world presented frame)
room = rw handled (omega arith)

serve_connection-handle_authenticated_frame_example :
    serve_connection "s" ports service gen requests responses token presented writer
      (ok tt)
      world
      reader
    ≡ delivered "s" ports service gen requests responses token presented writer (ok tt) world (
        handle_authenticated_frame "s" ports service gen requests responses token world presented
          frame)
unfolding to_be_bytes
serve_connection-handle_authenticated_frame_example =
    serve_connection-handle_authenticated_frame "s" ports service gen requests responses token
      presented writer (ok tt) world reader (1 ∷ []) [] refl refl (omega arith) room refl

abbrev busy : ServerResponse
busy = failure "r2" server_busy "The daemon has reached its concurrent connection limit"

abbrev refusals : Json ServerResponse
refusals = codec ServerResponse-discrete busy busy

-- The token in one piece, and the frame behind it.
abbrev peer : List Answer
peer = unread presented (arrives 0 (0 ∷ 0 ∷ 1 ∷ []) ∷ arrives 1 [] ∷ [])

reject_busy_connection-busy_response_example :
    reject_busy_connection requests refusals token peer writer
    ≡ record { ending = over (ok tt); sent = frame }
unfolding to_hex
reject_busy_connection-busy_response_example =
    reject_busy_connection-busy_response requests refusals token presented "r2" health none checking
      frame [] frame peer writer made (first_frame ClientRequest-discrete checking checking)
      accepted.full accepted.text accepted.matched refl refl
      (first_frame ServerResponse-discrete busy busy) (omega arith) refl
