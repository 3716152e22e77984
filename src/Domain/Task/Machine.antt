-- ===== src/Domain/Task/Machine.antt =====
-- The task and its transitions, `impl Task` of crates/kesharon-domain/src/task.rs.
use kesharon.Prelude.{
  String, Bool, not, Option, none, some, if◌then◌else◌, is_blank, Result, ok, err,
}
use kesharon.Domain.Budget.{ResourceBudget}
use kesharon.Domain.Task.Error.{TaskError, empty_goal, invalid_transition, terminal_state}
use kesharon.Domain.Task.State.{
  TaskState, draft, planning, awaiting_approval, executing, paused, awaiting_review, completed,
  cancelled, ExecutionMode, plan, is_terminal, state_eq,
}
use kesharon.Domain.Task.Parts.{TaskId, TaskPlan}

pub record Task : Type 0 where
  pub id : TaskId
  pub goal : String
  pub budget : ResourceBudget
  pub state : TaskState
  pub execution_mode : ExecutionMode
  pub plan : Option TaskPlan

unfoldable pub new : TaskId → String → ResourceBudget → Result Task TaskError
new id goal budget =
    if is_blank goal
    then err empty_goal
    else ok (record {
      id = id;
      goal = goal;
      budget = budget;
      state = draft;
      execution_mode = plan;
      plan = none;
    })

unfoldable pub set_execution_mode : Task → ExecutionMode → Task
set_execution_mode t mode = record t { execution_mode = mode }

unfoldable pub is_active : Task → Bool
unfolding is_terminal
is_active t = not (is_terminal t.state)

unfoldable pub require_state : Task → TaskState → String → Result (Unit {0}) TaskError
unfolding is_terminal state_eq
require_state t expected action =
    if is_terminal t.state
    then err terminal_state
    else if not (state_eq t.state expected)
    then err (invalid_transition t.state action)
    else ok tt

-- What a method leaves: the task is written only after its check passed.
abbrev pub after : Task → Task → Result (Unit {0}) TaskError → Result (Unit {0}) TaskError × Task
after t t' (ok _) = (ok tt, t')
after t t' (err e) = (err e, t)

unfoldable pub transition :
    Task → TaskState → TaskState → String → Result (Unit {0}) TaskError × Task
unfolding require_state
transition t from to action = after t (record t { state = to }) (require_state t from action)

unfoldable pub start_planning : Task → Result (Unit {0}) TaskError × Task
unfolding transition
start_planning t = transition t draft planning "start_planning"

unfoldable pub request_approval : Task → TaskPlan → Result (Unit {0}) TaskError × Task
unfolding require_state
request_approval t p =
    after t (record t { plan = some p; state = awaiting_approval })
      (require_state t planning "request_approval")

unfoldable pub approve : Task → Result (Unit {0}) TaskError × Task
unfolding transition
approve t = transition t awaiting_approval executing "approve"

unfoldable pub reject : Task → Result (Unit {0}) TaskError × Task
unfolding transition
reject t = transition t awaiting_approval cancelled "reject"

unfoldable pub pause : Task → Result (Unit {0}) TaskError × Task
unfolding transition
pause t = transition t executing paused "pause"

unfoldable pub resume : Task → Result (Unit {0}) TaskError × Task
unfolding transition
resume t = transition t paused executing "resume"

unfoldable pub submit_for_review : Task → Result (Unit {0}) TaskError × Task
unfolding transition
submit_for_review t = transition t executing awaiting_review "submit_for_review"

unfoldable pub request_revision : Task → Result (Unit {0}) TaskError × Task
unfolding transition
request_revision t = transition t awaiting_review executing "request_revision"

unfoldable pub accept : Task → Result (Unit {0}) TaskError × Task
unfolding transition
accept t = transition t awaiting_review completed "accept"
