-- ===== src/Daemon/Runtime.antt =====
-- The permits of `ServerRuntime`, crates/kesharon-daemon/src/runtime.rs. The counter is an atomic
-- number that every thread reads and writes in one step, and a permit lives until it is dropped.
pub mod Permits
pub mod Accepting
pub mod Tests
use kesharon.Prelude.{
  ℕ, suc, ◌+◌, ◌-◌, ◌^◌, ◌%◌, ◌≡◌, Option, none, some, List, [], ◌∷◌, ◌++◌, ltb, if◌then◌else◌,
}

abbrev pub max_active_connections : ℕ
max_active_connections = 8

-- `ConnectionPermit::acquire`: the counter after `fetch_update`, if the closure gave a value.
unfoldable pub acquire : ℕ → Option ℕ
acquire active = if ltb active max_active_connections then some (active + 1) else none

-- `Drop for ConnectionPermit`: `fetch_sub` wraps around in a `usize` of 64 bits.
unfoldable pub release : ℕ → ℕ
release active = (active + (2 ^ 64 - 1)) % 2 ^ 64

-- The counter, and the connections whose permit is alive: those served by a thread of their own.
pub record Runtime : Type 0 where
  pub active_connections : ℕ
  pub served : List ℕ

-- One step of the accept loop or of a connection's thread.
pub data RuntimeStep (x y : Runtime) : Type 0 where
  -- a connection gets a permit and a thread
  serves :
      (connection active : ℕ)
      → acquire x.active_connections ≡ some active
      → y ≡ record { active_connections = active; served = connection ∷ x.served }
      → RuntimeStep x y
  -- a connection gets a permit, and its thread cannot be started: the closure drops the permit
  fails_to_spawn :
      (connection active : ℕ)
      → acquire x.active_connections ≡ some active
      → y ≡ record x { active_connections = release active }
      → RuntimeStep x y
  -- a connection gets no permit and is told that the daemon is busy
  rejects : (connection : ℕ) → acquire x.active_connections ≡ none → y ≡ x → RuntimeStep x y
  -- a thread ends, with or without an error or a panic, and drops its permit
  ends :
      (before after : List ℕ) (connection : ℕ)
      → x.served ≡ before ++ connection ∷ after
      → y ≡ record { active_connections = release x.active_connections; served = before ++ after }
      → RuntimeStep x y

pub data RuntimeReach (x : Runtime) : Runtime → Type 0 where
  here : RuntimeReach x x
  next : {y z : Runtime} → RuntimeReach x y → RuntimeStep y z → RuntimeReach x z
