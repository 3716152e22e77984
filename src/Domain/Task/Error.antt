-- ===== src/Domain/Task/Error.antt =====
-- `TaskError` of crates/kesharon-domain/src/task.rs, with its `Display`.
use Prim.Native.String.{◌++◌}
use kesharon.Prelude.{String}
use kesharon.Domain.Task.State.{TaskState, state_debug}

pub data TaskError : Type 0 where
  empty_identifier empty_goal empty_plan empty_step_description : TaskError
  invalid_resource_budget : TaskError
  invalid_transition : TaskState → String → TaskError
  terminal_state : TaskError

unfoldable pub to_string : TaskError → String
unfolding state_debug
to_string empty_identifier = "identifier must not be blank"
to_string empty_goal = "task goal must not be blank"
to_string empty_plan = "task plan must contain at least one step"
to_string empty_step_description = "task step description must not be blank"
to_string invalid_resource_budget = "resource budget ceilings must be greater than zero"
to_string (invalid_transition from action) =
    "cannot " ++ (action ++ (" while task is " ++ state_debug from))
to_string terminal_state = "terminal task state cannot be changed"
