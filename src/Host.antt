-- ===== src/Host.antt =====
-- The desktop host, apps/desktop/src-tauri/src/lib.rs: its backoff, its restarts, and how it follows
-- the events of a subscription. A duration is its number of milliseconds.
pub mod Backoff
pub mod Follow
pub mod Error
pub mod Client
pub mod Launch
pub mod Subscribe
pub mod Received
pub mod Remote
pub mod Streamed
pub mod Delivery
pub mod Loop
pub mod State
pub mod Process
pub mod Tests
use kesharon.Prelude.{
  ℕ, ◌+◌, ◌*◌, ◌≡◌, String, Bool, true, false, not, ◌||◌, Option, none, some, List, [], ◌∷◌, ltb,
  ◌==◌, str_eq, if◌then◌else◌,
}
use kesharon.Protocol.Event.{StreamMessage, snapshot, event, DaemonEvent, WorkspaceSnapshot}

abbrev pub initial_backoff : ℕ
initial_backoff = 50

abbrev pub max_backoff : ℕ
max_backoff = 1000

-- The product of two u128 does not saturate at these sizes.
unfoldable pub next_backoff : ℕ → ℕ
next_backoff current =
    let doubled = current * 2 in if ltb max_backoff doubled then max_backoff else doubled

pub data ExitDecision : Type 0 where
  restart mark_recoverable : ExitDecision

pub record RestartBudget : Type 0 where
  pub restart_used : Bool

unfoldable pub record_unexpected_exit : RestartBudget → ExitDecision × RestartBudget
record_unexpected_exit budget =
    if budget.restart_used
    then (mark_recoverable, budget)
    else (restart, record { restart_used = true })

pub data LifecycleAction : Type 0 where
  hide_to_tray exit : LifecycleAction

pub data ProcessObservation : Type 0 where
  output stream_error terminated : ProcessObservation

unfoldable pub should_replace_daemon : ProcessObservation → Bool
should_replace_daemon terminated = true
should_replace_daemon _ = false

unfoldable pub lifecycle_action : Bool → LifecycleAction
lifecycle_action explicit_quit = if explicit_quit then exit else hide_to_tray

pub data DaemonStreamUpdate : Type 0 where
  message : StreamMessage → DaemonStreamUpdate
  reconnecting : DaemonStreamUpdate
  unavailable : String → DaemonStreamUpdate

-- The local variables `current_stream_id` and `expected_sequence` of the inner loop.
pub record Following : Type 0 where
  pub current_stream_id : String
  pub expected_sequence : ℕ

-- After a subscription, and after any later snapshot. The sum is not bounded, here and below: behind the
-- last u64 a debug build panics, and a release build expects 0, which no event has.
abbrev pub following : String → WorkspaceSnapshot → Following
following stream_id s = record {
  current_stream_id = stream_id;
  expected_sequence = s.last_sequence + 1;
}

-- One message: `none` is a gap, at which the loop is left to connect again.
unfoldable pub accept_message : Following → StreamMessage → Option Following
accept_message f (event e) =
    if not (str_eq e.stream_id f.current_stream_id) || not (e.sequence == f.expected_sequence)
    then none
    else some (record f { expected_sequence = e.sequence + 1 })
accept_message f (snapshot s) = some (following s.stream_id s)

-- A message that is passed on, before those of the rest of the loop.
abbrev pub passed_on :
    StreamMessage
    → List DaemonStreamUpdate × Option Following
    → List DaemonStreamUpdate × Option Following
passed_on m (updates, f) = (message m ∷ updates, f)

-- The inner loop over the messages that are read, while the view takes the updates: what the view is
-- sent, and where the loop stands if it still runs.
unfoldable pub follow : Following → List StreamMessage → List DaemonStreamUpdate × Option Following
unfolding accept_message
follow f [] = ([], some f)
follow f (m ∷ messages) = elim (accept_message f m) [
  | none ↦ (reconnecting ∷ [], none)
  | some f' ↦ passed_on m (follow f' messages)
]
