-- ===== src/Host/Process.antt =====
-- `start_daemon` of apps/desktop/src-tauri/src/lib.rs, and the task that watches the process. What the
-- system answers is given.
pub mod Restarts
use kesharon.Prelude.{
  ℕ, zero, suc, String, Bool, true, false, ◌||◌, Option, none, some, List, [], ◌∷◌, if◌then◌else◌,
  Result, ok, err,
}
use kesharon.Daemon.Session.State.{Mutex}
use kesharon.Host.{
  ExitDecision, restart, mark_recoverable, RestartBudget, record_unexpected_exit,
  ProcessObservation, should_replace_daemon,
}
use kesharon.Host.Client.{DaemonClient}
use kesharon.Host.Error.{HostError, runtime, state_unavailable}
use kesharon.Host.Launch.{LaunchConfiguration, generate, into_client}
use kesharon.Host.State.{DaemonState}

-- What a start meets: the socket directory, the random bytes, the endpoint that is made, the child that
-- is spawned, and the writing of its token.
pub record Launching : Type 0 where
  pub directory : Result (Unit {0}) HostError
  pub filled : Result (List ℕ) String
  pub endpoint_value : String
  pub spawned : Result ℕ String
  pub written : Result (Unit {0}) String

-- The result of a start, the state, and the children that it has killed.
pub record Launched : Type 0 where
  pub outcome : Result (Unit {0}) HostError
  pub state : DaemonState
  pub killed : List ℕ

abbrev pub not_launched : HostError → DaemonState → Launched
not_launched e s = record { outcome = err e; state = s; killed = [] }

abbrev pub store_client : DaemonState → DaemonClient → DaemonState
store_client s client = record s { client = record s.client { inner = some client } }

abbrev pub store_child : DaemonState → ℕ → DaemonState
store_child s child = record s { child = record s.child { inner = some child } }

-- The client and the child are stored.
unfoldable pub store : DaemonState → DaemonClient → ℕ → Launched
store s client child =
    if s.client.poisoned
    then not_launched state_unavailable s
    else if s.child.poisoned
    then not_launched state_unavailable (store_client s client)
    else record { outcome = ok tt; state = store_child (store_client s client) child; killed = [] }

unfoldable pub spawn_child : DaemonState → DaemonClient → Launching → Launched
unfolding store
spawn_child s client l = elim l.spawned [
  | err message ↦ not_launched (runtime message) s
  | ok child ↦ elim l.written [
    | err message ↦ record { outcome = err (runtime message); state = s; killed = child ∷ [] }
    | ok _ ↦ store s client child
  ]
]

abbrev pub client_made :
    DaemonState → Launching → Option (Result DaemonClient HostError) → Option Launched
client_made s l none = none
client_made s l (some (err e)) = some (not_launched e s)
client_made s l (some (ok client)) = some (spawn_child s client l)

abbrev pub generated :
    DaemonState → Launching → Result LaunchConfiguration HostError → Option Launched
generated s l (err e) = some (not_launched e s)
generated s l (ok launch) = client_made s l (into_client launch)

-- `start_daemon` up to the task; `none` is the panic of `parse_hex`.
unfoldable pub start_daemon : DaemonState → Launching → Option Launched
unfolding spawn_child generate into_client
start_daemon s l = elim l.directory [
  | err e ↦ some (not_launched e s)
  | ok _ ↦ generated s l (generate l.filled l.endpoint_value)
]

abbrev pub taken_out {ℓ} : {A : Type ℓ} → Mutex (Option A) → Mutex (Option A)
taken_out m = if m.poisoned then m else record m { inner = none }

abbrev pub decide : Mutex RestartBudget → ExitDecision × Mutex RestartBudget
decide budget =
    if budget.poisoned
    then (mark_recoverable, budget)
    else let (decision, used) = record_unexpected_exit budget.inner in
      (decision, record budget { inner = used })

-- The body of the loop over the events when the process has terminated, up to the restart.
unfoldable pub handle_exit : DaemonState → ExitDecision × DaemonState
handle_exit s =
    let (decision, budget) = decide s.restart_budget in
    (
      decision,
      record s { client = taken_out s.client; child = taken_out s.child; restart_budget = budget },
    )

-- `while let Some(event) = receiver.recv().await`, as to whether it comes to a termination.
abbrev pub exits : List ProcessObservation → Bool
exits [] = false
exits (o ∷ os) = should_replace_daemon o || exits os

-- A start, and the observations of its process.
pub record Life : Type 0 where
  pub launching : Launching
  pub observations : List ProcessObservation

-- The state, the number of starts, and whether a process is watched.
pub record Supervised : Type 0 where
  pub state : DaemonState
  pub starts : ℕ
  pub watched : Bool

abbrev pub unwatched : ℕ → DaemonState → Supervised
unwatched starts s = record { state = s; starts = starts; watched = false }

-- A decision and what it leads to: a further start, or nothing.
abbrev pub decided : ExitDecision × DaemonState → (DaemonState → Supervised) → Supervised
decided (restart, s) again = let rest = again s in record rest { starts = suc rest.starts }
decided (mark_recoverable, s) again = unwatched 1 s

-- A start that has been tried, and its process.
abbrev pub launched :
    DaemonState
    → List ProcessObservation
    → Option Launched
    → (DaemonState → Supervised)
    → Supervised
launched s os none again = unwatched 1 s
launched s os (some l) again = elim l.outcome [
  | err e ↦ unwatched 1 l.state
  | ok _ ↦
      if exits os
      then decided (handle_exit l.state) again
      else record { state = l.state; starts = 1; watched = true }
]

-- The starts of a host, each with what it and its process meet.
unfoldable pub supervise : DaemonState → List Life → Supervised
unfolding start_daemon handle_exit
supervise s [] = unwatched 0 s
supervise s (life ∷ lives) =
    launched s life.observations (start_daemon s life.launching) (λ s'. supervise s' lives)
