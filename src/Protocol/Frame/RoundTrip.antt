-- ===== src/Protocol/Frame/RoundTrip.antt =====
-- What is encoded is decoded again, for each kind of message.
use kesharon.Prelude.{
  ℕ, ◌≡◌, refl, String, Option, List, arith, Result, ok, err, length, map_err, ◌>>=◌,
}
use kesharon.Protocol.Error.{malformed_json}
use kesharon.Protocol.Request.{ClientRequest, RequestMethod, new_request}
use kesharon.Protocol.Response.{ServerResponse, ResponsePayload, ErrorCode, success, failure}
use kesharon.Protocol.Event.{
  StreamMessage, WorkspaceSnapshot, snapshot, event, DaemonEvent, DaemonEventPayload, new_event,
}
use kesharon.Protocol.Frame.{
  Json, encode_payload, encode_frame, decode_frame, check_request, check_response, check_message,
  decode_client_request_frame, decode_server_response_frame, decode_stream_message_frame,
}
use kesharon.Protocol.Frame.Words.{to_be_bytes, from_be_bytes-to_be_bytes}

module _ {A : Type 0} (json : Json A) where
  decode_payload :
      (a : A) (payload frame : List ℕ)
      → json.from_slice payload ≡ ok a
      → encode_payload payload ≡ ok frame
      → decode_frame json frame ≡ ok a
  unfolding encode_payload decode_frame to_be_bytes
  decode_payload a payload frame r e = ground (arith, from_be_bytes-to_be_bytes (length payload))

  written :
      (a : A) (frame : List ℕ) (r : Result (List ℕ) String)
      → json.to_vec a ≡ r
      → (map_err malformed_json r >>= encode_payload) ≡ ok frame
      → decode_frame json frame ≡ ok a
  written a frame (ok payload) p e =
      decode_payload a payload frame (json.from_slice-to_vec a payload p) e
  written a frame (err message) p e = cc

  -- A frame that `encode_frame` gives decodes to the message that was encoded.
  pub decode_frame-encode_frame :
      (a : A) (frame : List ℕ) → encode_frame json a ≡ ok frame → decode_frame json frame ≡ ok a
  unfolding encode_frame
  decode_frame-encode_frame a frame e = written a frame (json.to_vec a) refl e

-- A request that `ClientRequest::new` makes passes from its frame through `decode_client_request_frame`.
pub request_round_trip :
    (json : Json ClientRequest) (id : String) (method : RequestMethod) (key : Option String)
    {request : ClientRequest} (frame : List ℕ)
    → new_request id method key ≡ ok request
    → encode_frame json request ≡ ok frame
    → decode_client_request_frame json frame ≡ ok request
unfolding decode_client_request_frame new_request check_request
request_round_trip json id method key {request} frame made sent =
    ground (arith, decode_frame-encode_frame json request frame sent)

-- So do a successful and a failed response, for any contents.
pub response_round_trip :
    (json : Json ServerResponse) (id : String) (payload : ResponsePayload) (code : ErrorCode)
    (message : String) (good bad : List ℕ)
    → encode_frame json (success id payload) ≡ ok good
    → encode_frame json (failure id code message) ≡ ok bad
    → (decode_server_response_frame json good ≡ ok (success id payload))
      × (decode_server_response_frame json bad ≡ ok (failure id code message))
unfolding decode_server_response_frame check_response success failure
response_round_trip json id payload code message good bad s f = ground (
  arith,
  decode_frame-encode_frame json (success id payload) good s,
  decode_frame-encode_frame json (failure id code message) bad f,
)

-- And so do a snapshot and each event that `DaemonEvent::new` makes.
pub message_round_trip :
    (json : Json StreamMessage) (stream_id : String) (sequence : ℕ) (payload : DaemonEventPayload)
    (s : WorkspaceSnapshot) {e : DaemonEvent} (first second : List ℕ)
    → new_event stream_id sequence payload ≡ ok e
    → encode_frame json (snapshot s) ≡ ok first
    → encode_frame json (event e) ≡ ok second
    → (decode_stream_message_frame json first ≡ ok (snapshot s))
      × (decode_stream_message_frame json second ≡ ok (event e))
unfolding decode_stream_message_frame check_message new_event
message_round_trip json stream_id sequence payload s {e} first second made f g = ground (
  arith,
  decode_frame-encode_frame json (snapshot s) first f,
  decode_frame-encode_frame json (event e) second g,
)
