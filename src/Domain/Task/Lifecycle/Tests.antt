-- ===== src/Domain/Task/Lifecycle/Tests.antt =====
-- The theorems on a task's histories at concrete calls.
use kesharon.Prelude.{◌≡◌, refl, true, none, List, [], ◌∷◌, ok, is_blank}
use kesharon.Domain.Budget.{ResourceBudget}
use kesharon.Domain.Task.State.{draft, completed, ExecutionMode, act, is_terminal}
use kesharon.Domain.Task.Parts.{TaskId, TaskPlan}
use kesharon.Domain.Task.Machine.{Task, new}
use kesharon.Domain.Task.Lifecycle.{
  Call, mode, start, request, approves, pauses, resumes, submits, revises, accepts, perform, run,
  Outcome, perform-Outcome,
}
use kesharon.Domain.Task.Lifecycle.Review.{
  planned, asked, granted, handed_in, closed, Passes, completed-Passes,
}
use kesharon.Domain.Task.Lifecycle.Terminal.{IsPlanned, new-run-IsPlanned}

abbrev budget : ResourceBudget
budget = record {
  max_memory_bytes = 1024;
  max_disk_write_bytes = 1024;
  max_concurrent_tools = 2;
  max_prompt_tokens = none;
  max_completion_tokens = none;
  max_cost_micros = none;
}

abbrev id : TaskId
id = record { as_str = "t1" }

abbrev fresh : Task
fresh = record {
  id = id;
  goal = "tidy up";
  budget = budget;
  state = draft;
  execution_mode = ExecutionMode.plan;
  plan = none;
}

abbrev steps : TaskPlan
steps = record { steps = record { id = record { as_str = "s1" }; description = "look" } ∷ [] }

-- A revision is asked for, and one call is out of turn.
abbrev history : List Call
history =
    start
    ∷ approves
    ∷ request steps
    ∷ mode act
    ∷ approves
    ∷ submits
    ∷ revises
    ∷ pauses
    ∷ resumes
    ∷ submits
    ∷ accepts
    ∷ []

made : new id "tidy up" budget ≡ ok fresh
unfolding new is_blank
made = refl

history_completes : (run fresh history).state ≡ completed
unfolding run perform
history_completes = refl

perform-Outcome_example : Outcome approves fresh (perform approves fresh)
perform-Outcome_example = perform-Outcome approves fresh

completed-Passes_example : Passes (planned ∷ asked ∷ granted ∷ handed_in ∷ closed ∷ []) history
completed-Passes_example =
    completed-Passes id "tidy up" budget {t = fresh} history made history_completes

new-run-IsPlanned_example : IsPlanned (run fresh (start ∷ request steps ∷ []))
new-run-IsPlanned_example =
    new-run-IsPlanned id "tidy up" budget {t = fresh} (start ∷ request steps ∷ []) made

abbrev ended : Task
ended = record fresh { state = completed }

ended_is_terminal : is_terminal completed ≡ true
unfolding is_terminal
ended_is_terminal = refl
