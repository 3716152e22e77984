-- ===== src/Host/Remote.antt =====
-- A call of the client and the daemon that serves it, over a connection that brings each side what the
-- other has written.
use mathlib.Core.Path.{subst}
use kesharon.Prelude.{
  ℕ, ◌+◌, ◌≡◌, refl, String, Bool, true, false, Option, some, List, [], ◌++◌, arith, length, ok,
}
use kesharon.Application.Ports.{RepositoryService, IdGenerator, StateRepository}
use kesharon.Ipc.{Answer, Taking}
use kesharon.Ipc.Deliver.{write_all-IsWhole}
use kesharon.Protocol.Event.{StreamMessage}
use kesharon.Protocol.Frame.{Json, encode_frame}
use kesharon.Protocol.Request.{
  ClientRequest, RequestMethod, health, open_project as method_open,
  cancel_request as method_cancel, subscribe_events, new_request,
}
use kesharon.Protocol.Response.{ServerResponse}
use kesharon.Protocol.Token.{LaunchToken, matches_hex}
use kesharon.Daemon.Session.State.{World}
use kesharon.Daemon.Session.Answers.{AllSound}
use kesharon.Daemon.Session.Cancel.{dispatch}
use kesharon.Daemon.Session.Stored.{dispatch-Keeps}
use kesharon.Daemon.Server.Connection.{is_utf8}
use kesharon.Daemon.Server.Frames.{dispatch_request-dispatch}
use kesharon.Daemon.Server.Serve.{
  over, after_frame, nothing_more, serve_reply, serve_method, serve_read, serve_local_stream,
}
use kesharon.Daemon.Server.Transport.{read_authenticated_request-encode_frame}
use kesharon.Host.Client.{DaemonClient, LocalStream, send_request, receive_response}
use kesharon.Host.Received.{Brings, Takes, Gives, over_stream-ok, receive_response-encode_frame}

-- A token of a client that the daemon accepts.
pub record IsAccepted (launch_token : LaunchToken) (token : List ℕ) : Type 0 where
  pub full : length token ≡ 64
  pub text : is_utf8 token ≡ true
  pub matched : matches_hex launch_token token ≡ some true

abbrev pub is_subscription : RequestMethod → Bool
is_subscription subscribe_events = true
is_subscription _ = false

-- A frame that is written whole.
pub after_frame-nothing_more :
    (takings : List Taking) (frame : List ℕ)
    → Takes (length frame) takings
    → after_frame takings (ok frame) nothing_more
      ≡ record { ending = over (ok tt); sent = frame ++ [] }
after_frame-nothing_more takings frame (n, e) =
    let (w, _, _) = write_all-IsWhole takings frame 0 (omega (arith, n)) e in rw w refl

module _ {S : Type 0} (stream_id : String) (repository : StateRepository S)
    (service : RepositoryService) (ids : IdGenerator) (requests : Json ClientRequest)
    (responses : Json ServerResponse) (messages : Json StreamMessage) (token : LaunchToken)
    (client : DaemonClient) (w : World S) (request : ClientRequest) (frame reply : List ℕ)
    (host : LocalStream) (answers : List Answer) (closed : Bool) (takings : List Taking)
    (coming : List StreamMessage) where
  abbrev pub served : ServerResponse × World S
  served = dispatch stream_id repository service ids w request

  module _ (framed : encode_frame requests request ≡ ok frame)
      (replied : encode_frame responses served.0 ≡ ok reply) where
    serve_reply-ok :
        Takes (length reply) takings
        → serve_reply stream_id repository service ids responses messages takings w request
          ≡ (record { ending = over (ok tt); sent = reply ++ [] }, served.1)
    unfolding serve_reply
    serve_reply-ok t =
        rw (dispatch_request-dispatch stream_id repository service ids w request)
          (rw (replied, after_frame-nothing_more takings reply t) refl)

    serve_method-ok :
        (method : RequestMethod)
        → is_subscription method ≡ false
        → Takes (length reply) takings
        → serve_method stream_id repository service ids responses messages closed takings coming w
            request method
          ≡ (record { ending = over (ok tt); sent = reply ++ [] }, served.1)
    unfolding serve_method
    serve_method-ok subscribe_events s t = absurd (ground (arith, s))
    serve_method-ok health s t = serve_reply-ok t
    serve_method-ok (method_open path) s t = serve_reply-ok t
    serve_method-ok (method_cancel target) s t = serve_reply-ok t

    -- The daemon has read the request, and serves it.
    pub served_whole :
        (id : String) (key : Option String)
        → IsAccepted token client.launch_token
        → new_request id request.method key ≡ ok request
        → is_subscription request.method ≡ false
        → Takes (length reply) takings
        → Brings (client.launch_token ++ (frame ++ [])) answers
        → serve_local_stream stream_id repository service ids responses messages requests token
            answers closed takings coming w
          ≡ (record { ending = over (ok tt); sent = reply ++ [] }, served.1)
    unfolding serve_local_stream serve_read
    served_whole id key a made s t (c, e) =
        let (rest, r) =
          read_authenticated_request-encode_frame requests token client.launch_token id
            request.method key request frame [] answers made framed a.full a.text a.matched c e in
        rw (r, serve_local_stream) (serve_method-ok request.method s t)

    pub asked :
        Takes (length client.launch_token + length frame) host.takings
        → send_request requests responses client request (ok host) ≡ record {
          result = receive_response requests responses host.answers;
          sent = client.launch_token ++ (frame ++ []);
        }
    unfolding send_request
    asked t =
        rw (framed, send_request)
          (over_stream-ok client frame host (receive_response requests responses) t)

    -- A request of the client that is not a subscription, served by a daemon that accepts its token and
    -- whose stored responses are sound: if each side reads just what the other has written, and no
    -- call of the system fails or ends past its deadline, then the client gets the response of the
    -- session's `dispatch`, the daemon's thread ends without an error, and the session is as `dispatch`
    -- leaves it.
    pub send_request-serve_local_stream :
        (id : String) (key : Option String)
        → IsAccepted token client.launch_token
        → AllSound w.memory.completed
        → new_request id request.method key ≡ ok request
        → is_subscription request.method ≡ false
        → Takes (length client.launch_token + length frame) host.takings
        → Takes (length reply) takings
        → let call = send_request requests responses client request (ok host) in
          let (thread, w') =
            serve_local_stream stream_id repository service ids responses messages requests token
              answers closed takings coming w in
          Brings call.sent answers
          → Brings thread.sent host.answers
          → Gives served.0 [] call.result × (thread.ending ≡ over (ok tt)) × (w' ≡ served.1)
    send_request-serve_local_stream id key a sound made s t t' b b' =
        let asks = asked t in
        let serves = served_whole id key a made s t' (subst (λ x. Brings x.sent answers) asks b) in
        rw (asks, serves)
          (
            receive_response-encode_frame requests responses served.0 [] host.answers replied
                (dispatch-Keeps stream_id repository service ids w request sound).0.1
                (subst (λ x. Brings x.0.sent host.answers) serves b'),
            refl,
            refl,
          )
