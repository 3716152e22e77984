-- ===== src/Daemon/Server.antt =====
-- The daemon behind a connection, crates/kesharon-daemon/src/lib.rs: authentication, decoding,
-- dispatch and framing of the reply.
pub mod Frames
pub mod Connection
pub mod Transport
pub mod Serve
pub mod Authentic
pub mod Sent
pub mod Connected
pub mod Busy
pub mod Once
pub mod Piped
pub mod Tests
use Prim.Native.String.{◌++◌}
use kesharon.Prelude.{
  ℕ, String, Bool, true, false, not, Option, none, some, List, ltb, if◌then◌else◌, Result, ok, err,
  ◌>>=◌, map_err, decimal,
}
use kesharon.Application.Ports.{RepositoryService, IdGenerator, StateRepository}
use kesharon.Protocol.Error.{ProtocolError}
use kesharon.Protocol.Error
use kesharon.Protocol.Frame.{Json, max_frame_bytes, encode_frame, decode_client_request_frame}
use kesharon.Protocol.Request.{
  ClientRequest, RequestMethod, protocol_version, health, open_project as method_open,
  cancel_request as method_cancel, subscribe_events,
}
use kesharon.Protocol.Response.{
  ServerResponse, success, failure, server_busy, ready, subscription_ready,
}
use kesharon.Protocol.Response
use kesharon.Protocol.Token.{LaunchToken, matches_hex}
use kesharon.Daemon.Session.State.{World}
use kesharon.Daemon.Session.Cancel.{dispatch}

-- A protocol error is kept as it is; the program keeps its text.
pub data DaemonError : Type 0 where
  authentication_failed : DaemonError
  frame_too_large : (declared maximum : ℕ) → DaemonError
  io : String → DaemonError
  protocol : ProtocolError → DaemonError
  session : String → DaemonError

-- `Display`, of an error that keeps the protocol's text.
unfoldable pub to_string : DaemonError → String
to_string authentication_failed = "launch authentication failed"
to_string (frame_too_large declared maximum) =
    "frame declares " ++ (decimal declared ++ (" bytes; maximum is " ++ decimal maximum))
to_string (io message) = "I/O error: " ++ message
to_string (protocol error) = "protocol error: " ++ Error.to_string error
to_string (session message) = "session error: " ++ message

unfoldable pub validate_frame_size : ℕ → Result (Unit {0}) DaemonError
validate_frame_size declared =
    if ltb max_frame_bytes declared then err (frame_too_large declared max_frame_bytes) else ok tt

unfoldable pub busy_response : String → ServerResponse
busy_response request_id =
    failure request_id server_busy "The daemon has reached its concurrent connection limit"

module _ {S : Type 0} (stream_id : String) (repository : StateRepository S)
    (service : RepositoryService) (ids : IdGenerator) where
  -- `dispatch_request`: two methods are answered without the session.
  unfoldable pub dispatch_by : World S → ClientRequest → RequestMethod → ServerResponse × World S
  dispatch_by w request health =
      (success request.request_id (Response.health ready protocol_version), w)
  dispatch_by w request subscribe_events =
      (success request.request_id (subscription_ready stream_id), w)
  dispatch_by w request (method_open path) = dispatch stream_id repository service ids w request
  dispatch_by w request (method_cancel target) = dispatch stream_id repository service ids w request

  unfoldable pub dispatch_request : World S → ClientRequest → ServerResponse × World S
  unfolding dispatch_by
  dispatch_request w request = dispatch_by w request request.method

  module _ (requests : Json ClientRequest) (responses : Json ServerResponse) where
    -- The request is decoded; the reply is framed after the session has moved on.
    unfoldable pub answer_decoded :
        World S → Result ClientRequest ProtocolError → Result (List ℕ) DaemonError × World S
    unfolding dispatch_request
    answer_decoded w (err e) = (err (protocol e), w)
    answer_decoded w (ok request) =
        let (response, w') = dispatch_request w request in
        (map_err protocol (encode_frame responses response), w')

    -- `none` is a panic in the comparison of the token.
    unfoldable pub handle_authenticated_frame :
        LaunchToken
        → World S
        → (presented_token frame : List ℕ) → Option (Result (List ℕ) DaemonError × World S)
    unfolding answer_decoded
    handle_authenticated_frame token w presented_token frame =
        elim (matches_hex token presented_token) [
          | none ↦ none
          | some matches ↦
              if not matches
              then some (err authentication_failed, w)
              else some (answer_decoded w (decode_client_request_frame requests frame))
        ]
