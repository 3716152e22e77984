-- ===== src/Domain/Task/Lifecycle/Terminal.antt =====
-- Invariants of a task's histories, and what happens after a task has ended.
use kesharon.Prelude.{
  String, ◌≡◌, refl, ◌≢◌, ◌∙◌, map, true, none, List, [], ◌∷◌, arith, Result, ok, err,
}
use kesharon.Domain.Budget.{ResourceBudget}
use kesharon.Domain.Task.Error.{TaskError, terminal_state}
use kesharon.Domain.Task.State.{draft, planning, failed, is_terminal}
use kesharon.Domain.Task.Parts.{TaskId}
use kesharon.Domain.Task.Machine.{Task, new}
use kesharon.Domain.Task.Lifecycle.{Call, mode, start, perform, run}

-- A plan is there exactly from `request_approval` on, and no method leads to `Failed`.
abbrev pub IsPlanned : Task → Type 0
IsPlanned t = elim t.state [
  | draft ↦ t.plan ≡ none
  | planning ↦ t.plan ≡ none
  | failed ↦ ⊥
  | _ ↦ t.plan ≢ none
]

perform-IsPlanned : (c : Call) (t : Task) → IsPlanned t → IsPlanned (perform c t).1
unfolding perform
perform-IsPlanned (mode m) t h = ground arith
perform-IsPlanned _ t h = ground arith

run-IsPlanned : (t : Task) (cs : List Call) → IsPlanned t → IsPlanned (run t cs)
unfolding run
run-IsPlanned t [] h = h
run-IsPlanned t (c ∷ cs) h = run-IsPlanned (perform c t).1 cs (perform-IsPlanned c t h)

-- A task made by `Task::new` has, after any calls, no plan while it is `Draft` or `Planning`, a plan
-- in each other state, and is never `Failed`.
pub new-run-IsPlanned :
    (id : TaskId) (goal : String) (budget : ResourceBudget) {t : Task} (cs : List Call)
    → new id goal budget ≡ ok t
    → IsPlanned (run t cs)
unfolding new
new-run-IsPlanned id goal budget {t} cs made = run-IsPlanned t cs fresh
  where
    fresh : IsPlanned t
    fresh = ground arith

-- What a call on an ended task gives: the mode is still set, all else is refused.
abbrev pub refusal : Call → Result (Unit {0}) TaskError
refusal (mode m) = ok tt
refusal _ = err terminal_state

-- The replies to the calls in turn.
unfoldable pub replies : Task → List Call → List (Result (Unit {0}) TaskError)
replies t [] = []
replies t (c ∷ cs) = (perform c t).0 ∷ replies (perform c t).1 cs

perform_ended :
    (c : Call) (t : Task)
    → is_terminal t.state ≡ true
    → ((perform c t).0 ≡ refusal c)
      × ((perform c t).1.state ≡ t.state)
      × ((perform c t).1.plan ≡ t.plan)
unfolding perform is_terminal
perform_ended (mode m) t h = ground arith
perform_ended start t h = ground arith
perform_ended _ t h = ground arith

-- A completed, failed or cancelled task keeps its state and its plan under any calls, and each call
-- but that of `set_execution_mode` fails with `TerminalState`.
pub terminal_absorbs :
    (t : Task) (cs : List Call)
    → is_terminal t.state ≡ true
    → (replies t cs ≡ map refusal cs) × ((run t cs).state ≡ t.state) × ((run t cs).plan ≡ t.plan)
unfolding run replies
terminal_absorbs t [] h = (refl, refl, refl)
terminal_absorbs t (c ∷ cs) h =
    let (r, s, p) = perform_ended c t h in
    let (rs, ss, ps) = terminal_absorbs (perform c t).1 cs (rw s h) in (cc (r, rs), ss ∙ s, ps ∙ p)
