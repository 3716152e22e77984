-- ===== src/Domain/Task/Parts.antt =====
-- Identifiers (crates/kesharon-domain/src/id.rs) and the steps, plans and checkpoints of
-- crates/kesharon-domain/src/task.rs.
use kesharon.Prelude.{ℕ, String, ◌||◌, List, if◌then◌else◌, is_blank, is_empty, Result, ok, err}
use kesharon.Domain.Task.Error.{TaskError, empty_identifier, empty_plan, empty_step_description}

pub record TaskId : Type 0 where
  pub as_str : String

pub record TaskStepId : Type 0 where
  pub as_str : String

-- The two instances of the macro `identifier!`.
unfoldable pub new_task_id : String → Result TaskId TaskError
new_task_id value = if is_blank value then err empty_identifier else ok (record { as_str = value })

unfoldable pub new_task_step_id : String → Result TaskStepId TaskError
new_task_step_id value =
    if is_blank value then err empty_identifier else ok (record { as_str = value })

pub record TaskStep : Type 0 where
  pub id : TaskStepId
  pub description : String

unfoldable pub new_step : TaskStepId → String → Result TaskStep TaskError
new_step id description =
    if is_blank description
    then err empty_step_description
    else ok (record { id = id; description = description })

pub record TaskPlan : Type 0 where
  pub steps : List TaskStep

unfoldable pub new_plan : List TaskStep → Result TaskPlan TaskError
new_plan steps = if is_empty steps then err empty_plan else ok (record { steps = steps })

pub record TaskCheckpoint : Type 0 where
  pub id : String
  pub description : String
  pub git_ref : String
  pub timestamp_millis : ℕ

unfoldable pub new_checkpoint : String → String → String → ℕ → Result TaskCheckpoint TaskError
new_checkpoint id description git_ref timestamp_millis =
    if is_blank id || is_blank description || is_blank git_ref
    then err empty_identifier
    else ok (record {
      id = id;
      description = description;
      git_ref = git_ref;
      timestamp_millis = timestamp_millis;
    })
