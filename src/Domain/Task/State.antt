-- ===== src/Domain/Task/State.antt =====
-- `TaskState` and `ExecutionMode` of crates/kesharon-domain/src/task.rs.
use kesharon.Prelude.{Bool, true, false, String}

pub data TaskState : Type 0 where
  draft planning awaiting_approval executing paused awaiting_review : TaskState
  completed failed cancelled : TaskState

pub data ExecutionMode : Type 0 where
  plan act : ExecutionMode

unfoldable pub is_terminal : TaskState → Bool
is_terminal completed = true
is_terminal failed = true
is_terminal cancelled = true
is_terminal _ = false

-- The derived `PartialEq`.
unfoldable pub state_eq : TaskState → TaskState → Bool
state_eq draft draft = true
state_eq planning planning = true
state_eq awaiting_approval awaiting_approval = true
state_eq executing executing = true
state_eq paused paused = true
state_eq awaiting_review awaiting_review = true
state_eq completed completed = true
state_eq failed failed = true
state_eq cancelled cancelled = true
state_eq _ _ = false

-- The derived `Debug`, `{:?}`.
unfoldable pub state_debug : TaskState → String
state_debug draft = "Draft"
state_debug planning = "Planning"
state_debug awaiting_approval = "AwaitingApproval"
state_debug executing = "Executing"
state_debug paused = "Paused"
state_debug awaiting_review = "AwaitingReview"
state_debug completed = "Completed"
state_debug failed = "Failed"
state_debug cancelled = "Cancelled"
