-- ===== src/Daemon/Runtime/Tests.antt =====
-- The permits at a concrete run: a connection is served, and ends.
use kesharon.Prelude.{refl, [], ◌∷◌}
use kesharon.Daemon.Runtime.{
  Runtime, RuntimeStep, RuntimeReach, acquire, release, serves, ends, here, next,
}

abbrev idle : Runtime
idle = record { active_connections = 0; served = [] }

abbrev busy : Runtime
busy = record { active_connections = 1; served = 7 ∷ [] }

served : RuntimeStep idle busy
unfolding acquire
served = serves 7 1 refl refl

left : RuntimeStep busy idle
unfolding release
left = ends [] [] 7 refl refl

both : RuntimeReach idle idle
both = next (next here served) left
