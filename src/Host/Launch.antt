-- ===== src/Host/Launch.antt =====
-- `LaunchConfiguration` of apps/desktop/src-tauri/src/lib.rs, and what `start_daemon` gives the new
-- process.
use kesharon.Prelude.{ℕ, String, Option, List, [], ◌∷◌, ◌++◌, Result, ok, err, ◌>>=◌, map_err}
use kesharon.Ipc.{LocalEndpoint, EndpointError, blank, new_endpoint}
use kesharon.Protocol.Token.{to_hex}
use kesharon.Host.Client.{DaemonClient, new_client}
use kesharon.Host.Error.{HostError, endpoint, random}

-- `EndpointError` as text.
abbrev pub endpoint_text : EndpointError → String
endpoint_text blank = "local IPC endpoint must not be blank"

pub record LaunchConfiguration : Type 0 where
  pub endpoint : LocalEndpoint
  pub launch_token : List ℕ

-- `LaunchConfiguration::generate`, from what `getrandom` has filled and the path that was made.
unfoldable pub generate :
    (filled : Result (List ℕ) String) → String → Result LaunchConfiguration HostError
unfolding to_hex new_endpoint
generate (err message) endpoint_value = err (random message)
generate (ok token) endpoint_value =
    map_err (λ e. endpoint (endpoint_text e)) (new_endpoint endpoint_value) >>= λ place.
    ok (record { endpoint = place; launch_token = to_hex token })

unfoldable pub into_client : LaunchConfiguration → Option (Result DaemonClient HostError)
unfolding new_client
into_client launch = new_client launch.endpoint launch.launch_token

-- The arguments and the line of standard input of the new process.
unfoldable pub sidecar_arguments : LaunchConfiguration → List String
sidecar_arguments launch = "--endpoint" ∷ launch.endpoint.as_str ∷ []

unfoldable pub stdin_token : LaunchConfiguration → List ℕ
stdin_token launch = launch.launch_token ++ b'\n' ∷ []
