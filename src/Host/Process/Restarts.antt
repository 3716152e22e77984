-- ===== src/Host/Process/Restarts.antt =====
-- The host restarts its daemon once, and its state tells whether a daemon is watched.
use kesharon.Prelude.{
  ℕ, ◌≤◌, ◌≡◌, Bool, true, false, Option, none, some, if◌then◌else◌, Result, ok, err,
}
use kesharon.Host.{ExitDecision, restart, mark_recoverable}
use kesharon.Host.Client.{DaemonClient}
use kesharon.Host.Error.{HostError}
use kesharon.Host.Process.{Launched, store_client, store_child, Supervised}
use kesharon.Host.State.{DaemonState}

-- No thread has panicked with one of the three locks.
pub record IsUnlocked (s : DaemonState) : Type 0 where
  pub client : s.client.poisoned ≡ false
  pub child : s.child.poisoned ≡ false
  pub budget : s.restart_budget.poisoned ≡ false

-- There is neither a client nor a child; or both.
abbrev pub IsIdle : DaemonState → Type 0
IsIdle s = (s.client.inner ≡ none) × (s.child.inner ≡ none)

abbrev pub IsServed : DaemonState → Type 0
IsServed s =
    (client : DaemonClient) × (child : ℕ) × (s.client.inner ≡ some client)
    × (s.child.inner ≡ some child)

-- A start that has failed leaves the state, and one that has succeeded stores its client and child.
abbrev Starts : DaemonState → Result (Unit {0}) HostError → DaemonState → Type 0
Starts s (err e) s' = s' ≡ s
Starts s (ok _) s' =
    (client : DaemonClient) × (child : ℕ) × (s' ≡ store_child (store_client s client) child)

abbrev IsLaunch : DaemonState → Option Launched → Type 0
IsLaunch s none = Unit
IsLaunch s (some l) = Starts s l.outcome l.state

-- An exit behind a start: the budget is used, and the state idle.
abbrev Left : DaemonState → ExitDecision × DaemonState → Type 0
Left s (decision, s') =
    IsUnlocked s'
    × IsIdle s'
    × (s'.restart_budget.inner.restart_used ≡ true)
    × (decision ≡ (if s.restart_budget.inner.restart_used then mark_recoverable else restart))

-- What some starts come to: no more than a limit; a client and a child if a process is watched; and
-- neither if none is.
abbrev Watches : Bool → DaemonState → Type 0
Watches true s = IsServed s
Watches false s = IsIdle s

abbrev pub IsSupervised : ℕ → Supervised → Type 0
IsSupervised limit r = (r.starts ≤ limit) × Watches r.watched r.state

abbrev pub limit_of : DaemonState → ℕ
limit_of s = if s.restart_budget.inner.restart_used then 1 else 2

-- After an exit, a further start is within the limit.
abbrev Again : DaemonState → (DaemonState → Supervised) → Type 0
Again s again =
    (s' : DaemonState)
    → IsUnlocked s'
    → IsIdle s'
    → s'.restart_budget.inner.restart_used ≡ true
    → IsSupervised 1 (again s')
