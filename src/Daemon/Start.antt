-- ===== src/Daemon/Start.antt =====
-- The start of the daemon's process, crates/kesharon-daemon/src/main.rs, up to the choice of how it
-- serves.
pub mod Launch
pub mod Tests
use kesharon.Prelude.{
  ℕ, String, Bool, true, false, ◌&&◌, ◌||◌, Option, none, some, List, [], ◌∷◌, ◌==◌, is_empty,
  str_eq, if◌then◌else◌, Result, ok, err, ◌>>=◌, ◌>>◌, map_err,
}
use kesharon.Ipc.{LocalEndpoint, EndpointError, new_endpoint}
use kesharon.Protocol.Error.{ProtocolError}
use kesharon.Protocol.Token.{LaunchToken, parse_hex}
use kesharon.Daemon.Server.Connection.{is_utf8}
use kesharon.Daemon.Session.State.{World}

-- The errors that `run` boxes.
pub data StartError : Type 0 where
  unknown_argument : String → StartError
  missing_endpoint : StartError
  endpoint_error : EndpointError → StartError
  io_error : String → StartError
  token_error : ProtocolError → StartError

-- The loop over the arguments behind the program's name.
unfoldable pub read_arguments :
    List String
    → (endpoint : Option String) → (once : Bool) → Result (Option String × Bool) StartError
read_arguments [] endpoint once = ok (endpoint, once)
read_arguments (argument ∷ []) endpoint once =
    if str_eq argument "--endpoint"
    then ok (none, once)
    else if str_eq argument "--once"
    then ok (endpoint, true)
    else err (unknown_argument argument)
read_arguments (argument ∷ next ∷ arguments) endpoint once =
    let behind = read_arguments arguments (some next) once in
    let onwards = read_arguments (next ∷ arguments) endpoint true in
    if str_eq argument "--endpoint"
    then behind
    else if str_eq argument "--once"
    then onwards
    else err (unknown_argument argument)

-- The bytes up to the first line feed, which is one of them.
unfoldable pub line_of : List ℕ → List ℕ
line_of [] = []
line_of (b ∷ bytes) = let rest = line_of bytes in if b == b'\n' then b ∷ [] else b ∷ rest

-- `read_line`
unfoldable pub read_line : Result (List ℕ) String → Result (List ℕ) StartError
unfolding line_of
read_line (err message) = err (io_error message)
read_line (ok bytes) =
    if is_utf8 (line_of bytes)
    then ok (line_of bytes)
    else err (io_error "stream did not contain valid UTF-8")

-- `trim_end_matches(['\r', '\n'])`
unfoldable pub trim_end_matches : List ℕ → List ℕ
trim_end_matches [] = []
trim_end_matches (b ∷ bytes) =
    let rest = trim_end_matches bytes in
    if is_empty rest && (b == b'\r' || b == b'\n') then [] else b ∷ rest

-- A daemon that has said that it is ready, with its session.
pub record Started (S : Type 0) : Type 0 where
  pub endpoint : LocalEndpoint
  pub launch_token : LaunchToken
  pub session : World S
  pub once : Bool

abbrev pub required : Option String → Result String StartError
required none = err missing_endpoint
required (some value) = ok value

unfoldable pub chosen_endpoint : List String → Result (LocalEndpoint × Bool) StartError
unfolding read_arguments new_endpoint
chosen_endpoint arguments = read_arguments arguments none false >>= λ read.
    required read.0 >>= λ value.
    map_err endpoint_error (new_endpoint value) >>= λ place. ok (place, read.1)

module _ {S : Type 0} where
  -- `Daemon::new`: `none` is the panic of `DaemonSession::production`. Then the line `READY` is flushed.
  abbrev pub daemon_made :
      LocalEndpoint
      → (once : Bool) → (flushed : Result (Unit {0}) String) → LaunchToken
      → Option (World S)
      → Option (Result (Started S) StartError)
  daemon_made place once flushed launch_token none = none
  daemon_made place once flushed launch_token (some w) = some (
      map_err io_error flushed >>= λ _.
      ok (record { endpoint = place; launch_token = launch_token; session = w; once = once }))

  -- The server binds its endpoint.
  abbrev pub server_bound :
      LocalEndpoint
      → (once : Bool) → (bound flushed : Result (Unit {0}) String) → (production : Option (World S))
      → LaunchToken
      → Option (Result (Started S) StartError)
  server_bound place once (err e) flushed production launch_token = some (err (io_error e))
  server_bound place once (ok _) flushed production launch_token =
      daemon_made place once flushed launch_token production

  -- The token has been parsed; `none` is the panic of `parse_hex`.
  abbrev pub token_parsed :
      LocalEndpoint
      → (once : Bool) → (bound flushed : Result (Unit {0}) String) → (production : Option (World S))
      → Option (Result LaunchToken ProtocolError)
      → Option (Result (Started S) StartError)
  token_parsed place once bound flushed production none = none
  token_parsed place once bound flushed production (some (err e)) = some (err (token_error e))
  token_parsed place once bound flushed production (some (ok launch_token)) =
      server_bound place once bound flushed production launch_token

  abbrev pub line_read :
      LocalEndpoint
      → (once : Bool) → (bound flushed : Result (Unit {0}) String) → (production : Option (World S))
      → Result (List ℕ) StartError
      → Option (Result (Started S) StartError)
  line_read place once bound flushed production (err e) = some (err e)
  line_read place once bound flushed production (ok line) =
      token_parsed place once bound flushed production (parse_hex (trim_end_matches line))

  abbrev pub endpoint_made :
      (stdin : Result (List ℕ) String)
      → (bound flushed : Result (Unit {0}) String) → (production : Option (World S))
      → Result (LocalEndpoint × Bool) StartError
      → Option (Result (Started S) StartError)
  endpoint_made stdin bound flushed production (err e) = some (err e)
  endpoint_made stdin bound flushed production (ok (place, once)) =
      line_read place once bound flushed production (read_line stdin)

  -- `run` until it serves; `none` is a panic, of `parse_hex` or of `production`.
  unfoldable pub start_process :
      (arguments : List String)
      → (stdin : Result (List ℕ) String) → (bound flushed : Result (Unit {0}) String)
      → (production : Option (World S)) → Option (Result (Started S) StartError)
  unfolding chosen_endpoint read_line
  start_process arguments stdin bound flushed production =
      endpoint_made stdin bound flushed production (chosen_endpoint arguments)
