-- ===== src/Daemon/Server/Connected.antt =====
-- What a connection comes to as a whole.
use kesharon.Prelude.{ℕ, ◌≡◌, refl, ◌⊎◌, inl, inr, String, Bool, List, [], Result, ok, err}
use kesharon.Application.Ports.{RepositoryService, IdGenerator, StateRepository}
use kesharon.Ipc.{Answer, Taking}
use kesharon.Protocol.Error.{ProtocolError}
use kesharon.Protocol.Event.{StreamMessage, snapshot, WorkspaceSnapshot}
use kesharon.Protocol.Frame.{Json, encode_frame}
use kesharon.Protocol.Request.{
  ClientRequest, RequestMethod, health, open_project as method_open,
  cancel_request as method_cancel, subscribe_events,
}
use kesharon.Protocol.Response.{ServerResponse}
use kesharon.Protocol.Token.{LaunchToken}
use kesharon.Daemon.Session.State.{SessionError, World}
use kesharon.Daemon.Session.Cancel.{subscribe, dispatch, dispatch_method}
use kesharon.Daemon.Server.Authentic.{
  OnRequest, IsAuthentic, read_authenticated_request-IsAuthentic,
}
use kesharon.Daemon.Server.Connection.{
  Reading, finished, waits, panicked, read_authenticated_request,
}
use kesharon.Daemon.Server.Frames.{dispatch_request-dispatch}
use kesharon.Daemon.Server.Sent.{
  IsSent, framed_before, after_frame-IsSent, nothing_more-IsSent, subscription_bytes,
  write_subscription-IsSent,
}
use kesharon.Daemon.Server.Serve.{
  Serving, nothing_more, after_subscribe, serve_subscription, serve_reply, serve_method, serve_read,
  serve_local_stream,
}

-- A dispatch of the subscribing method moves nothing.
module _ {S : Type 0} (stream_id : String) (repository : StateRepository S)
    (service : RepositoryService) (ids : IdGenerator) (responses : Json ServerResponse)
    (messages : Json StreamMessage) where
  abbrev reply_to : World S → ClientRequest → Result (List ℕ) ProtocolError
  reply_to w request =
      encode_frame responses (dispatch stream_id repository service ids w request).0

  -- The bytes for a subscriber, and the session behind the subscription.
  abbrev feed :
      List StreamMessage → ClientRequest → Result WorkspaceSnapshot SessionError × World S → List ℕ
  feed coming request (err e, w) = []
  feed coming request (ok s, w) =
      subscription_bytes messages (reply_to w request) (encode_frame messages (snapshot s)) coming

  -- All that a request is answered with, and the session afterwards.
  abbrev pub answer_bytes : List StreamMessage → World S → ClientRequest → RequestMethod → List ℕ
  answer_bytes coming w request subscribe_events = feed coming request (subscribe stream_id w)
  answer_bytes coming w request _ = framed_before (reply_to w request) []

  abbrev pub world_after : World S → ClientRequest → RequestMethod → World S
  world_after w request subscribe_events = (subscribe stream_id w).1
  world_after w request _ = (dispatch stream_id repository service ids w request).1

  -- The answer to a request: its bytes, or a prefix of them, and its effect on the session.
  abbrev pub IsAnswered : List StreamMessage → World S → ClientRequest → Serving × World S → Type 0
  IsAnswered coming w request (s, w') =
      IsSent (answer_bytes coming w request request.method) s
      × (w' ≡ world_after w request request.method)

  abbrev By :
      List StreamMessage → World S → ClientRequest → RequestMethod → Serving × World S → Type 0
  By coming w request method (s, w') =
      IsSent (answer_bytes coming w request method) s × (w' ≡ world_after w request method)

  dispatch-subscribing :
      (w : World S) (request : ClientRequest)
      → request.method ≡ subscribe_events
      → (dispatch stream_id repository service ids w request).1 ≡ w
  unfolding dispatch dispatch_method
  dispatch-subscribing w request m = rw m refl

  after_subscribe-IsSent :
      (closed : Bool) (takings : List Taking) (coming : List StreamMessage)
      (request : ClientRequest) (r : Result WorkspaceSnapshot SessionError × World S)
      → request.method ≡ subscribe_events
      → let (s, w') =
          after_subscribe stream_id repository service ids responses messages closed takings coming
            request r in
        IsSent (feed coming request r) s × (w' ≡ r.1)
  unfolding after_subscribe
  after_subscribe-IsSent closed takings coming request (err e, w) m = ((([], refl), tt), refl)
  after_subscribe-IsSent closed takings coming request (ok s, w) m =
      rw (dispatch_request-dispatch stream_id repository service ids w request) (
        write_subscription-IsSent messages closed takings coming _ _,
        dispatch-subscribing w request m,
      )

  serve_reply-IsSent :
      (takings : List Taking) (w : World S) (request : ClientRequest)
      → let (s, w') =
          serve_reply stream_id repository service ids responses messages takings w request in
        IsSent (framed_before (reply_to w request) []) s
        × (w' ≡ (dispatch stream_id repository service ids w request).1)
  unfolding serve_reply
  serve_reply-IsSent takings w request =
      rw (dispatch_request-dispatch stream_id repository service ids w request)
        (after_frame-IsSent takings (reply_to w request) [] nothing_more nothing_more-IsSent, refl)

  pub serve_method-IsAnswered :
      (closed : Bool) (takings : List Taking) (coming : List StreamMessage) (w : World S)
      (request : ClientRequest) (method : RequestMethod)
      → request.method ≡ method
      → By coming w request method (
          serve_method stream_id repository service ids responses messages closed takings coming w
            request method)
  unfolding serve_method serve_subscription
  serve_method-IsAnswered closed takings coming w request subscribe_events m =
      after_subscribe-IsSent closed takings coming request (subscribe stream_id w) m
  serve_method-IsAnswered closed takings coming w request health m =
      serve_reply-IsSent takings w request
  serve_method-IsAnswered closed takings coming w request (method_open path) m =
      serve_reply-IsSent takings w request
  serve_method-IsAnswered closed takings coming w request (method_cancel target) m =
      serve_reply-IsSent takings w request

  -- Nothing has been written, and the session is as it was.
  abbrev Untouched : World S → Serving × World S → Type 0
  Untouched w (s, w') = (s.sent ≡ []) × (w' ≡ w)

  module _ (requests : Json ClientRequest) (token : LaunchToken) (answers : List Answer)
      (closed : Bool) (takings : List Taking) (coming : List StreamMessage) (w : World S) where
    abbrev pub IsServed : Serving × World S → Type 0
    IsServed r =
        Untouched w r
        ⊎ ((request : ClientRequest) × IsAuthentic requests token answers request
            × IsAnswered coming w request r)

    serve_read-IsServed :
        (r : Reading ClientRequest)
        → OnRequest (IsAuthentic requests token answers) r
        → IsServed (
            serve_read stream_id repository service ids responses messages closed takings coming w
              r)
    unfolding serve_read
    serve_read-IsServed waits h = inl (refl, refl)
    serve_read-IsServed panicked h = inl (refl, refl)
    serve_read-IsServed (finished (err e) rest) h = inl (refl, refl)
    serve_read-IsServed (finished (ok request) rest) h =
        inr
          (request, h, serve_method-IsAnswered closed takings coming w request request.method refl)

    -- A connection either is sent nothing and leaves the session as it was, or it has presented the
    -- daemon's token and then the frame of a request; then this one request has its effect on the
    -- session, and what is sent is its answer, or a prefix of it if the thread has failed or still
    -- waits. The answer of a subscription is its reply, its snapshot and the messages of its channel,
    -- in this order, and nothing if the subscription or the encoding of the first two fails; that of
    -- any other request is the frame of the session's reply.
    pub serve_local_stream-IsServed : IsServed (
        serve_local_stream stream_id repository service ids responses messages requests token
          answers closed takings coming w)
    unfolding serve_local_stream
    serve_local_stream-IsServed =
        serve_read-IsServed (read_authenticated_request requests token answers)
          (read_authenticated_request-IsAuthentic requests token answers)
