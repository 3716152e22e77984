-- ===== src/Application/Recovery.antt =====
-- `SessionRecovery::execute` of crates/kesharon-application/src/lib.rs.
use kesharon.Prelude.{Option, none, some, Result, ok, ◌>>=◌}
use kesharon.Application.Error.{ApplicationError}
use kesharon.Application.Ports.{StateRepository}
use kesharon.Domain.Project.{Project}
use kesharon.Domain.Task.Machine.{Task}

pub record RecoveredSession : Type 0 where
  pub project : Option Project
  pub active_task : Option Task

module _ {S : Type 0} (repository : StateRepository S) (state : S) where
  unfoldable pub active_task_of : Option Project → Result (Option Task) ApplicationError
  active_task_of none = ok none
  active_task_of (some p) = repository.load_active_task state p.id.as_str

  unfoldable pub recover : Result RecoveredSession ApplicationError
  unfolding active_task_of
  recover = do
    project ← repository.load_last_active_project state
    active_task ← active_task_of project
    ok (record { project = project; active_task = active_task })
