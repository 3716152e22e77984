-- ===== src/Daemon/Server/Frames.antt =====
-- What a frame from a peer can do.
use kesharon.Prelude.{
  ℕ, ◌≡◌, refl, ap, ◌⊎◌, inl, inr, String, true, false, Option, none, some, List, arith, Result, ok,
  err, map_err, Option-cases,
}
use kesharon.Application.Ports.{RepositoryService, IdGenerator, StateRepository}
use kesharon.Protocol.Error.{ProtocolError}
use kesharon.Protocol.Frame.{Json, encode_frame, decode_frame, decode_client_request_frame}
use kesharon.Protocol.Frame.RoundTrip.{decode_frame-encode_frame}
use kesharon.Protocol.Request.{
  ClientRequest, RequestMethod, health, open_project as method_open,
  cancel_request as method_cancel, subscribe_events,
}
use kesharon.Protocol.Response.{ServerResponse}
use kesharon.Protocol.Token.{LaunchToken, matches_hex}
use kesharon.Daemon.Session.State.{World}
use kesharon.Daemon.Session.Cancel.{dispatch, dispatch_method}
use kesharon.Daemon.Session.Answers.{IsReply, AllSound}
use kesharon.Daemon.Session.Stored.{dispatch-Keeps}
use kesharon.Daemon.Server.{
  DaemonError, protocol, dispatch_by, dispatch_request, answer_decoded, handle_authenticated_frame,
}

module _ {S : Type 0} (stream_id : String) (ports : StateRepository S) (service : RepositoryService)
    (gen : IdGenerator) where
  by_method :
      (w : World S) (request : ClientRequest) (method : RequestMethod)
      → request.method ≡ method
      → dispatch_by stream_id ports service gen w request method
        ≡ dispatch_method stream_id ports service gen w request method
  unfolding dispatch_by dispatch dispatch_method
  by_method w request health e = refl
  by_method w request subscribe_events e = refl
  by_method w request (method_open path) e = rw e refl
  by_method w request (method_cancel target) e = rw e refl

  -- The two methods that the daemon answers without its session get the reply that the session gives,
  -- so that `dispatch_request` of the daemon is `dispatch` of the session for every request.
  pub dispatch_request-dispatch :
      (w : World S) (request : ClientRequest)
      → dispatch_request stream_id ports service gen w request
        ≡ dispatch stream_id ports service gen w request
  unfolding dispatch_request dispatch
  dispatch_request-dispatch w request = by_method w request request.method refl

  module _ (requests : Json ClientRequest) (responses : Json ServerResponse) (token : LaunchToken)
      (w : World S) where
    -- The frame was refused and the daemon is as it was.
    abbrev Refused : Result (List ℕ) DaemonError × World S → Type 0
    Refused (ok bytes, w') = ⊥
    Refused (err e, w') = w' ≡ w

    -- The frame carried a request that was dispatched.
    abbrev Served : (presented frame : List ℕ) → Result (List ℕ) DaemonError × World S → Type 0
    Served presented frame (r, w') =
        (request : ClientRequest) × (matches_hex token presented ≡ some true)
        × (decode_client_request_frame requests frame ≡ ok request)
        × (w' ≡ (dispatch stream_id ports service gen w request).1)
        × ((bytes : List ℕ)
            → r ≡ ok bytes
            → (response : ServerResponse) × (decode_frame responses bytes ≡ ok response)
              × (response ≡ (dispatch stream_id ports service gen w request).0)
              × IsReply request.request_id response)

    -- One or the other; or the thread panics, where the comparison of the token does.
    abbrev pub IsHandled :
        (presented frame : List ℕ) → Option (Result (List ℕ) DaemonError × World S) → Type 0
    IsHandled presented frame none = matches_hex token presented ≡ none
    IsHandled presented frame (some r) = Refused r ⊎ Served presented frame r

    framed :
        (response : ServerResponse) (r : Result (List ℕ) ProtocolError) {bytes : List ℕ}
        → encode_frame responses response ≡ r
        → map_err protocol r ≡ ok bytes
        → decode_frame responses bytes ≡ ok response
    framed response (ok bytes) e h =
        ground (arith, decode_frame-encode_frame responses response bytes e, h)
    framed response (err x) e h = cc

    answered :
        (presented frame : List ℕ) (d : Result ClientRequest ProtocolError)
        → AllSound w.memory.completed
        → matches_hex token presented ≡ some true
        → decode_client_request_frame requests frame ≡ d
        → Refused (answer_decoded stream_id ports service gen requests responses w d)
          ⊎ Served presented frame
              (answer_decoded stream_id ports service gen requests responses w d)
    unfolding answer_decoded
    answered presented frame (err e) s m d = inl refl
    answered presented frame (ok request) s m d =
        let same = dispatch_request-dispatch w request in
        inr (
          request,
          m,
          d,
          ap (λ r. r.1) same,
          λ bytes h. (
            (dispatch_request stream_id ports service gen w request).0,
            framed (dispatch_request stream_id ports service gen w request).0 _ refl h,
            ap (λ r. r.0) same,
            rw same (dispatch-Keeps stream_id ports service gen w request s).0,
          ),
        )

    -- In a session whose stored responses each hold a result or an error but not both, a frame either
    -- is refused with an error and changes nothing, or its token is the daemon's and it decodes to a
    -- request, which is dispatched; and the frame of the reply decodes to the session's response, with
    -- the identifier of that request and a result or an error but not both. The only other way is the
    -- panic of `matches_hex`.
    pub handle_authenticated_frame-IsHandled :
        (presented frame : List ℕ)
        → AllSound w.memory.completed
        → IsHandled presented frame (
            handle_authenticated_frame stream_id ports service gen requests responses token w
              presented frame)
    unfolding handle_authenticated_frame
    handle_authenticated_frame-IsHandled presented frame s =
        elim (Option-cases (matches_hex token presented)) [
          | inl e ↦ rw (e, handle_authenticated_frame) e
          | inr (true, e) ↦
              rw (e, handle_authenticated_frame)
                (answered presented frame (decode_client_request_frame requests frame) s e refl)
          | inr (false, e) ↦ rw (e, handle_authenticated_frame) (inl refl)
        ]
