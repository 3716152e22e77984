-- ===== src/Protocol/Request.antt =====
-- `ClientRequest` and `RequestMethod` of crates/kesharon-protocol/src/lib.rs.
use kesharon.Prelude.{
  ℕ, String, Bool, true, false, ◌&&◌, Option, none, some, if◌then◌else◌, str_eq, Result, ok, err,
}
use kesharon.Protocol.Error.{ProtocolError, missing_idempotency_key}

abbrev pub protocol_version : ℕ
protocol_version = 1

pub data RequestMethod : Type 0 where
  health : RequestMethod
  open_project : (path : String) → RequestMethod
  cancel_request : (target_request_id : String) → RequestMethod
  subscribe_events : RequestMethod

pub record ClientRequest : Type 0 where
  pub protocol_version : ℕ
  pub request_id : String
  pub method : RequestMethod
  pub idempotency_key : Option String

unfoldable pub requires_idempotency_key : RequestMethod → Bool
requires_idempotency_key (open_project path) = true
requires_idempotency_key (cancel_request target) = true
requires_idempotency_key _ = false

-- `idempotency_key.as_deref().is_none_or(str::is_empty)`
unfoldable pub lacks_key : Option String → Bool
lacks_key none = true
lacks_key (some key) = str_eq key ""

-- `ClientRequest::new`
unfoldable pub new_request :
    String → RequestMethod → Option String → Result ClientRequest ProtocolError
unfolding requires_idempotency_key lacks_key
new_request request_id method idempotency_key =
    if requires_idempotency_key method && lacks_key idempotency_key
    then err missing_idempotency_key
    else ok (record {
      protocol_version = protocol_version;
      request_id = request_id;
      method = method;
      idempotency_key = idempotency_key;
    })
