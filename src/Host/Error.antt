-- ===== src/Host/Error.antt =====
-- `HostError` of apps/desktop/src-tauri/src/lib.rs.
use Prim.Native.String.{◌++◌}
use kesharon.Prelude.{String}
use kesharon.Protocol.Error.{ProtocolError}
use kesharon.Protocol.Error

pub data HostError : Type 0 where
  io : String → HostError
  protocol : ProtocolError → HostError
  endpoint random runtime : String → HostError
  state_unavailable invalid_timeout unexpected_response : HostError

-- `Display`
unfoldable pub to_string : HostError → String
to_string (io error) = "local daemon connection failed: " ++ error
to_string (protocol error) = "daemon protocol failed: " ++ Error.to_string error
to_string (endpoint error) = "local endpoint is invalid: " ++ error
to_string (random error) = "secure random generation failed: " ++ error
to_string (runtime error) = "desktop runtime failed: " ++ error
to_string state_unavailable = "daemon state is unavailable"
to_string invalid_timeout = "daemon I/O timeout must be positive"
to_string unexpected_response = "daemon returned an unexpected response"
