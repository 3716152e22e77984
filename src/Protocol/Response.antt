-- ===== src/Protocol/Response.antt =====
-- `ServerResponse` and its payloads of crates/kesharon-protocol/src/lib.rs.
use kesharon.Prelude.{ℕ, String, Bool, Option, none, some}
use kesharon.Protocol.Request.{protocol_version}

pub data HealthStatus : Type 0 where
  ready degraded : HealthStatus

pub data CancellationOutcome : Type 0 where
  accepted already_finished not_found : CancellationOutcome

pub data ErrorCode : Type 0 where
  invalid_request not_git_repository project_path_unavailable operation_cancelled : ErrorCode
  request_in_progress server_busy internal_error : ErrorCode

pub record ErrorPayload : Type 0 where
  pub code : ErrorCode
  pub message : String

pub record ProjectSnapshot : Type 0 where
  pub id : String
  pub display_name : String
  pub canonical_root : String
  pub trusted : Bool

pub data ResponsePayload : Type 0 where
  health : HealthStatus → (version : ℕ) → ResponsePayload
  project_opened : ProjectSnapshot → ResponsePayload
  cancellation : (target_request_id : String) → CancellationOutcome → ResponsePayload
  subscription_ready : (stream_id : String) → ResponsePayload

pub record ServerResponse : Type 0 where
  pub protocol_version : ℕ
  pub request_id : String
  pub result : Option ResponsePayload
  pub error : Option ErrorPayload

unfoldable pub success : String → ResponsePayload → ServerResponse
success request_id result = record {
  protocol_version = protocol_version;
  request_id = request_id;
  result = some result;
  error = none;
}

unfoldable pub failure : String → ErrorCode → String → ServerResponse
failure request_id code message = record {
  protocol_version = protocol_version;
  request_id = request_id;
  result = none;
  error = some (record { code = code; message = message });
}

unfoldable pub with_request_id : ServerResponse → String → ServerResponse
with_request_id response request_id = record response { request_id = request_id }
