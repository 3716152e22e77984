-- ===== src/Host/Client.antt =====
-- `DaemonClient` and `DaemonSubscription` of apps/desktop/src-tauri/src/lib.rs. A connection is what
-- the writes and the reads on its stream meet.
use kesharon.Prelude.{
  ℕ, String, Option, none, some, List, [], ◌++◌, ltb, ◌==◌, if◌then◌else◌, Result, ok, err, map_err,
}
use kesharon.Ipc.{
  LocalEndpoint, Answer, Call, returned, waiting, read_exact, Taking, Written, write_all,
}
use kesharon.Protocol.Error.{ProtocolError, frame_too_large}
use kesharon.Protocol.Event.{StreamMessage, snapshot, event, DaemonEvent}
use kesharon.Protocol.Frame.{
  Json, max_frame_bytes, encode_frame, decode_server_response_frame, decode_stream_message_frame,
}
use kesharon.Protocol.Request.{
  ClientRequest, health, open_project as method_open, cancel_request as method_cancel, new_request,
}
use kesharon.Protocol.Response.{ServerResponse}
use kesharon.Protocol.Token.{parse_hex}
use kesharon.Daemon.Server.Connection.{declared_in}
use kesharon.Host.Error.{HostError, io, protocol, invalid_timeout, unexpected_response}

-- The token is the bytes of its text; the timeout is in milliseconds.
pub record DaemonClient : Type 0 where
  pub endpoint : LocalEndpoint
  pub launch_token : List ℕ
  pub io_timeout : ℕ

-- `DaemonClient::new_with_timeout`; `none` is the panic of `parse_hex`.
unfoldable pub new_with_timeout :
    LocalEndpoint → (launch_token : List ℕ) → ℕ → Option (Result DaemonClient HostError)
new_with_timeout place launch_token io_timeout = elim (parse_hex launch_token) [
  | none ↦ none
  | some (err e) ↦ some (err (protocol e))
  | some (ok token) ↦
      if io_timeout == 0
      then some (err invalid_timeout)
      else some
          (ok (record { endpoint = place; launch_token = launch_token; io_timeout = io_timeout }))
]

unfoldable pub new_client :
    LocalEndpoint → (launch_token : List ℕ) → Option (Result DaemonClient HostError)
unfolding new_with_timeout
new_client place launch_token = new_with_timeout place launch_token 2000

pub record LocalStream : Type 0 where
  pub takings : List Taking
  pub answers : List Answer

-- A call of the client: its result unless it still waits, and what it has written.
pub record Exchange (A : Type 0) : Type 0 where
  pub result : Call (Result A HostError)
  pub sent : List ℕ

abbrev pub failed_call : {A : Type 0} → HostError → Exchange A
failed_call e = record { result = returned (err e) []; sent = [] }

-- `read_exact_with_timeout(…)?`
abbrev pub read_then :
    {A : Type 0}
    → Call (Result (List ℕ) String)
    → (List ℕ → List Answer → Call (Result A HostError))
    → Call (Result A HostError)
read_then (returned (ok bytes) rest) f = f bytes rest
read_then (returned (err message) rest) f = returned (err (io message)) rest
read_then waiting f = waiting

-- A call that has given something, and what comes after it.
abbrev pub call_then :
    {A B : Type 0}
    → Call (Result A HostError)
    → (A → List Answer → Call (Result B HostError))
    → Call (Result B HostError)
call_then (returned (ok a) rest) f = f a rest
call_then (returned (err e) rest) f = returned (err e) rest
call_then waiting f = waiting

unfoldable pub read_frame_body :
    (prefix : List ℕ) → ℕ → List Answer → Call (Result (List ℕ) HostError)
read_frame_body prefix declared answers =
    if ltb max_frame_bytes declared
    then returned (err (protocol (frame_too_large declared max_frame_bytes))) answers
    else read_then (read_exact answers declared) (λ body rest. returned (ok (prefix ++ body)) rest)

-- The prefix, the check of the length and the body, as three functions of the client read a frame.
unfoldable pub read_frame : List Answer → Call (Result (List ℕ) HostError)
unfolding read_frame_body
read_frame answers =
    read_then (read_exact answers 4)
      (λ prefix rest. read_frame_body prefix (declared_in prefix) rest)

-- `write_all_with_timeout(…)?`
abbrev pub outcome_then :
    {A : Type 0} → Option (Result (Unit {0}) String) → List ℕ → Exchange A → Exchange A
outcome_then none bytes rest = record { result = waiting; sent = bytes }
outcome_then (some (err message)) bytes rest = record {
  result = returned (err (io message)) [];
  sent = bytes;
}
outcome_then (some (ok _)) bytes rest = record rest { sent = bytes ++ rest.sent }

abbrev pub write_then : {A : Type 0} → Written → (List Taking → Exchange A) → Exchange A
write_then w f = outcome_then w.outcome w.bytes (f w.rest)

-- A frame behind the token, on a stream that `connect_with_timeout` has given or not, and then what is
-- read.
unfoldable pub over_stream :
    {A : Type 0}
    → DaemonClient
    → Result (List ℕ) ProtocolError
    → Result LocalStream String
    → (List Answer → Call (Result A HostError))
    → Exchange A
over_stream client (err e) connected f = failed_call (protocol e)
over_stream client (ok frame) (err message) f = failed_call (io message)
over_stream client (ok frame) (ok stream) f =
    write_then (write_all stream.takings client.launch_token) (λ takings.
      write_then (write_all takings frame)
        (λ takings'. record { result = f stream.answers; sent = [] }))

-- `StreamMessage` frames: `DaemonSubscription::read_next_message` and `read_next_event`.
unfoldable pub read_next_message :
    Json StreamMessage → List Answer → Call (Result StreamMessage HostError)
unfolding read_frame
read_next_message messages answers =
    call_then (read_frame answers)
      (λ frame rest. returned (map_err protocol (decode_stream_message_frame messages frame)) rest)

abbrev pub as_event : StreamMessage → Result DaemonEvent HostError
as_event (event e) = ok e
as_event (snapshot s) = err unexpected_response

unfoldable pub read_next_event :
    Json StreamMessage → List Answer → Call (Result DaemonEvent HostError)
unfolding read_next_message
read_next_event messages answers =
    call_then (read_next_message messages answers) (λ m rest. returned (as_event m) rest)

module _ (requests : Json ClientRequest) (responses : Json ServerResponse) where
  unfoldable pub receive_response : List Answer → Call (Result ServerResponse HostError)
  unfolding read_frame
  receive_response answers = call_then (read_frame answers) (λ frame rest.
      returned (map_err protocol (decode_server_response_frame responses frame)) rest)

  unfoldable pub send_request :
      DaemonClient → ClientRequest → Result LocalStream String → Exchange ServerResponse
  unfolding over_stream receive_response
  send_request client request connected =
      over_stream client (encode_frame requests request) connected receive_response

  -- A request, where `ClientRequest::new` has made one.
  unfoldable pub send_made :
      DaemonClient
      → Result ClientRequest ProtocolError
      → Result LocalStream String
      → Exchange ServerResponse
  unfolding send_request
  send_made client (err e) connected = failed_call (protocol e)
  send_made client (ok request) connected = send_request client request connected

  -- The identifier is one that `uuid` has made.
  unfoldable pub request_health :
      DaemonClient → (id : String) → Result LocalStream String → Exchange ServerResponse
  unfolding send_made
  request_health client id connected = send_made client (new_request id health none) connected

  -- `DaemonClient::open_project`
  unfoldable pub client_open_project :
      DaemonClient
      → (path request_id idempotency_key : String) → Result LocalStream String
      → Exchange ServerResponse
  unfolding send_made
  client_open_project client path request_id idempotency_key connected =
      send_made client (new_request request_id (method_open path) (some idempotency_key)) connected

  -- `DaemonClient::cancel_request`
  unfoldable pub client_cancel_request :
      DaemonClient
      → (target_request_id request_id idempotency_key : String) → Result LocalStream String
      → Exchange ServerResponse
  unfolding send_made
  client_cancel_request client target_request_id request_id idempotency_key connected =
      send_made client
        (new_request request_id (method_cancel target_request_id) (some idempotency_key)) connected
