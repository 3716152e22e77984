-- ===== src/Protocol/Event.antt =====
-- Snapshots, events and stream messages of crates/kesharon-protocol/src/lib.rs.
use kesharon.Prelude.{ℕ, String, Option, List, ◌==◌, if◌then◌else◌, Result, ok, err}
use kesharon.Protocol.Error.{ProtocolError, invalid_event_sequence}
use kesharon.Protocol.Request.{protocol_version}
use kesharon.Protocol.Response.{ProjectSnapshot, ErrorCode}

pub data OperationKind : Type 0 where
  open_project : OperationKind

pub data OperationStatus : Type 0 where
  running : OperationStatus

pub record OperationSnapshot : Type 0 where
  pub request_id : String
  pub kind : OperationKind
  pub status : OperationStatus

pub record WorkspaceSnapshot : Type 0 where
  pub stream_id : String
  pub last_sequence : ℕ
  pub project : Option ProjectSnapshot
  pub active_operations : List OperationSnapshot

pub data DaemonEventPayload : Type 0 where
  operation_started : (request_id : String) → OperationKind → DaemonEventPayload
  project_opened : (request_id : String) → ProjectSnapshot → DaemonEventPayload
  operation_cancelled : (request_id : String) → DaemonEventPayload
  operation_failed : (request_id : String) → ErrorCode → (message : String) → DaemonEventPayload

pub record DaemonEvent : Type 0 where
  pub protocol_version : ℕ
  pub stream_id : String
  pub sequence : ℕ
  pub payload : DaemonEventPayload

-- `DaemonEvent::new`
unfoldable pub new_event : String → ℕ → DaemonEventPayload → Result DaemonEvent ProtocolError
new_event stream_id sequence payload =
    if sequence == 0
    then err invalid_event_sequence
    else ok (record {
      protocol_version = protocol_version;
      stream_id = stream_id;
      sequence = sequence;
      payload = payload;
    })

pub data StreamMessage : Type 0 where
  snapshot : WorkspaceSnapshot → StreamMessage
  event : DaemonEvent → StreamMessage
