-- ===== src/Daemon/Start/Tests.antt =====
-- The start of the daemon with a configuration of the host.
use kesharon.Prelude.{◌≡◌, refl, false, [], arith, is_blank, trim, trim_start, is_whitespace}
use kesharon.Protocol.Token.Tests.{token}
use kesharon.Daemon.Session.Restore.{new_session}
use kesharon.Daemon.Start.Launch.{IsLaunched, start_process-generate}

named : is_blank "/run/k.sock" ≡ false
unfolding is_blank trim trim_start is_whitespace
named = refl

start_process-generate_example :
    IsLaunched token.bytes "/run/k.sock" [] (new_session {S = Unit {0}})
start_process-generate_example =
    start_process-generate token.bytes (omega arith) refl "/run/k.sock" [] named new_session
