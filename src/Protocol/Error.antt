-- ===== src/Protocol/Error.antt =====
-- `ProtocolError` of crates/kesharon-protocol/src/lib.rs.
use Prim.Native.String.{◌++◌}
use kesharon.Prelude.{ℕ, String, decimal}

pub data ProtocolError : Type 0 where
  incomplete_length_prefix : ProtocolError
  frame_too_large : (declared : ℕ) (maximum : ℕ) → ProtocolError
  frame_length_mismatch : (declared : ℕ) (actual : ℕ) → ProtocolError
  malformed_json : String → ProtocolError
  unsupported_version : ℕ → ProtocolError
  missing_idempotency_key invalid_launch_token invalid_response_shape : ProtocolError
  invalid_event_sequence : ProtocolError

-- `Display`
unfoldable pub to_string : ProtocolError → String
unfolding decimal
to_string incomplete_length_prefix = "frame length prefix is incomplete"
to_string (frame_too_large declared maximum) =
    "frame declares " ++ (decimal declared ++ (" bytes; maximum is " ++ decimal maximum))
to_string (frame_length_mismatch declared actual) =
    "frame declares " ++ (decimal declared ++ (" bytes but contains " ++ decimal actual))
to_string (malformed_json error) = "malformed protocol JSON: " ++ error
to_string (unsupported_version version) = "unsupported protocol version " ++ decimal version
to_string missing_idempotency_key = "mutating request requires an idempotency key"
to_string invalid_launch_token = "launch token must be 256-bit hex"
to_string invalid_response_shape = "response must contain exactly one result or error"
to_string invalid_event_sequence = "event sequence must be greater than zero"
