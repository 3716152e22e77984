-- ===== src/Host/Subscribe.antt =====
-- `DaemonClient::health` and `DaemonClient::subscribe` of apps/desktop/src-tauri/src/lib.rs.
use kesharon.Prelude.{ℕ, String, Option, none, some, List, Result, ok, err, ◌>>=◌, map_err}
use kesharon.Ipc.{Answer, Call, returned}
use kesharon.Protocol.Error.{ProtocolError}
use kesharon.Protocol.Event.{StreamMessage, snapshot, event, WorkspaceSnapshot}
use kesharon.Protocol.Frame.{Json, encode_frame, decode_server_response_frame}
use kesharon.Protocol.Request.{ClientRequest, subscribe_events, new_request}
use kesharon.Protocol.Response.{
  ServerResponse, ResponsePayload, HealthStatus, subscription_ready, health,
}
use kesharon.Host.Client.{
  DaemonClient, LocalStream, Exchange, failed_call, call_then, read_frame, over_stream,
  request_health, read_next_message,
}
use kesharon.Host.Error.{HostError, protocol, unexpected_response}

pub record HealthSnapshot : Type 0 where
  pub status : HealthStatus
  pub protocol_version : ℕ

abbrev pub as_health : Option ResponsePayload → Result HealthSnapshot HostError
as_health (some (health status version)) =
    ok (record { status = status; protocol_version = version })
as_health _ = err unexpected_response

pub record DaemonSubscription : Type 0 where
  pub stream_id : String
  pub initial_snapshot : WorkspaceSnapshot

abbrev pub as_ready : Option ResponsePayload → Result String HostError
as_ready (some (subscription_ready stream_id)) = ok stream_id
as_ready _ = err unexpected_response

abbrev pub as_snapshot : StreamMessage → Result WorkspaceSnapshot HostError
as_snapshot (snapshot s) = ok s
as_snapshot (event e) = err unexpected_response

module _ (requests : Json ClientRequest) (responses : Json ServerResponse) where
  -- `DaemonClient::health`
  unfoldable pub client_health :
      DaemonClient → (id : String) → Result LocalStream String → Exchange HealthSnapshot
  unfolding request_health
  client_health client id connected =
      let asked = request_health requests responses client id connected in
      record {
        result =
            call_then asked.result (λ response rest. returned (as_health response.result) rest);
        sent = asked.sent;
      }

  module _ (messages : Json StreamMessage) where
    -- The second frame: the snapshot.
    unfoldable pub receive_snapshot :
        (stream_id : String) → List Answer → Call (Result DaemonSubscription HostError)
    unfolding read_next_message
    receive_snapshot stream_id answers = call_then (read_next_message messages answers) (λ m rest.
        returned
          (as_snapshot m >>= λ s. ok (record { stream_id = stream_id; initial_snapshot = s })) rest)

    -- The first frame: the reply.
    unfoldable pub receive_subscription : List Answer → Call (Result DaemonSubscription HostError)
    unfolding receive_snapshot read_frame
    receive_subscription answers = call_then (read_frame answers) (λ frame rest.
        call_then
          (returned
            (map_err protocol (decode_server_response_frame responses frame) >>= λ response.
              as_ready response.result)
            rest)
          receive_snapshot)

    unfoldable pub subscribe_made :
        DaemonClient
        → Result ClientRequest ProtocolError
        → Result LocalStream String
        → Exchange DaemonSubscription
    unfolding receive_subscription over_stream
    subscribe_made client (err e) connected = failed_call (protocol e)
    subscribe_made client (ok request) connected =
        over_stream client (encode_frame requests request) connected receive_subscription

    -- `DaemonClient::subscribe`
    unfoldable pub client_subscribe :
        DaemonClient → (id : String) → Result LocalStream String → Exchange DaemonSubscription
    unfolding subscribe_made
    client_subscribe client id connected =
        subscribe_made client (new_request id subscribe_events none) connected
