-- ===== src/Daemon/Server/Busy.antt =====
-- What a peer is told when the daemon is busy.
use mathlib.Core.List.{append-nil}
use kesharon.Prelude.{
  ◌≤◌, ◌≡◌, ap, String, true, false, Option, some, List, ◌++◌, ℕ, arith, length, ok,
}
use kesharon.Ipc.{Answer, Taking}
use kesharon.Ipc.Deliver.{calls, write_all-IsWhole}
use kesharon.Ipc.Read.{content, has_end}
use kesharon.Ipc.Write.{has_end as has_end_of_writes}
use kesharon.Protocol.Frame.{Json, encode_frame}
use kesharon.Protocol.Request.{ClientRequest, RequestMethod, new_request}
use kesharon.Protocol.Response.{ServerResponse, failure, server_busy}
use kesharon.Protocol.Token.{LaunchToken, matches_hex}
use kesharon.Daemon.Server.{busy_response}
use kesharon.Daemon.Server.Connection.{is_utf8}
use kesharon.Daemon.Server.Serve.{over, reject_read, reject_busy_connection}
use kesharon.Daemon.Server.Transport.{read_authenticated_request-encode_frame}

-- A peer of a busy daemon that sends the 64 bytes of a token that the daemon accepts and then the frame
-- of a request that `ClientRequest::new` made is sent just the frame of the failure `ServerBusy` with
-- the request's identifier, and the rejection returns without an error: in whatever pieces the bytes
-- come and go, if the writes have room for the frame, no call fails and none ends past its deadline.
pub reject_busy_connection-busy_response :
    (requests : Json ClientRequest) (responses : Json ServerResponse) (launch_token : LaunchToken)
    (token : List ℕ) (id : String) (method : RequestMethod) (key : Option String)
    (request : ClientRequest) (frame more reply : List ℕ) (answers : List Answer)
    (takings : List Taking)
    → new_request id method key ≡ ok request
    → encode_frame requests request ≡ ok frame
    → length token ≡ 64
    → is_utf8 token ≡ true
    → matches_hex launch_token token ≡ some true
    → content answers ≡ token ++ (frame ++ more)
    → has_end answers ≡ false
    → encode_frame responses (
        failure request.request_id server_busy
          "The daemon has reached its concurrent connection limit")
      ≡ ok reply
    → length reply ≤ calls takings
    → has_end_of_writes takings ≡ false
    → reject_busy_connection requests responses launch_token answers takings
      ≡ record { ending = over (ok tt); sent = reply }
unfolding reject_busy_connection reject_read busy_response
reject_busy_connection-busy_response requests responses launch_token token id method key request
      frame more reply answers takings made sent n u m c e framed room e' =
    let (rest, read) =
      read_authenticated_request-encode_frame requests launch_token token id method key request
        frame more answers made sent n u m c e in
    let (written, _, _) = write_all-IsWhole takings reply 0 (omega (arith, room)) e' in
    rw (read, reject_busy_connection)
      (rw framed (
        rw written
          (ap (λ bytes. record { ending = over (ok tt); sent = bytes }) (append-nil reply))))
