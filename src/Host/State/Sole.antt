-- ===== src/Host/State/Sole.antt =====
-- At most one subscription is not cancelled.
use kesharon.Prelude.{
  ℕ, zero, suc, ◌<◌, ◌≡◌, ◌≢◌, Bool, true, false, Option, none, some, List, length, get_elem?,
}
use kesharon.Host.State.{DaemonState, register_subscription}

-- Every flag is set but that of the subscription that is noted last, if any.
abbrev AllSet : List Bool → Option ℕ → Type 0
AllSet flags none = (a : ℕ) → a < length flags → get_elem? flags a ≡ some true
AllSet flags (some active) = (a : ℕ) → a < length flags → a ≢ active → get_elem? flags a ≡ some true

abbrev Stands : List Bool → Option ℕ → Type 0
Stands flags none = Unit
Stands flags (some active) = get_elem? flags active ≡ some false

-- Where nobody has poisoned the lock: the last subscription is the only one that is not cancelled.
pub record IsSole (s : DaemonState) : Type 0 where
  pub free : s.active_subscription_cancel.poisoned ≡ false
  pub others : AllSet s.flags s.active_subscription_cancel.inner
  pub stands : Stands s.flags s.active_subscription_cancel.inner

-- The state after some subscriptions.
abbrev pub registered : ℕ → DaemonState → DaemonState
registered zero s = s
registered (suc n) s = registered n (register_subscription s)
