-- ===== src/Application/Error.antt =====
-- `ApplicationError` of crates/kesharon-application/src/lib.rs, with its `Display`.
use Prim.Native.String.{◌++◌}
use kesharon.Prelude.{String}

pub data ApplicationError : Type 0 where
  repository invalid_project storage vault : (message : String) → ApplicationError
  cancelled : ApplicationError

unfoldable pub to_string : ApplicationError → String
to_string (repository message) = "repository error: " ++ message
to_string (invalid_project message) = "invalid project: " ++ message
to_string (storage message) = "storage error: " ++ message
to_string (vault message) = "vault error: " ++ message
to_string cancelled = "operation was cancelled"
