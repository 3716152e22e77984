-- ===== src/Domain/Task/Lifecycle/Review.antt =====
-- What a history must hold before a task runs or is completed.
use kesharon.Prelude.{String, ◌≡◌, sym, some, List, [], ◌∷◌, arith, Result, ok, err}
use mathlib.Core.Path.{subst}
use mathlib.Core.Option.{some-injective}
use kesharon.Domain.Budget.{ResourceBudget}
use kesharon.Domain.Task.Error.{TaskError}
use kesharon.Domain.Task.State.{
  TaskState, draft, planning, awaiting_approval, executing, paused, awaiting_review, completed,
  failed, cancelled,
}
use kesharon.Domain.Task.Parts.{TaskId}
use kesharon.Domain.Task.Machine.{Task, new}
use kesharon.Domain.Task.Lifecycle.{
  Call, mode, start, request, approves, rejects, pauses, resumes, submits, revises, accepts,
  perform, run, target, Outcome, perform-Outcome,
}

-- The milestones that the methods stand for.
pub data Milestone : Type 0 where
  planned asked granted handed_in closed : Milestone

-- `Passes ms cs`: the calls `cs` hold one call for each of the milestones `ms`, in their order.
pub data Passes : List Milestone → List Call → Type 0 where
  done : {cs : List Call} → Passes [] cs
  skip : (c : Call) {ms : List Milestone} {cs : List Call} → Passes ms cs → Passes ms (c ∷ cs)
  plan : {ms : List Milestone} {cs : List Call} → Passes ms cs → Passes (planned ∷ ms) (start ∷ cs)
  ask :
      {ms : List Milestone} {cs : List Call} (p : _)
      → Passes ms cs
      → Passes (asked ∷ ms) (request p ∷ cs)
  grant :
      {ms : List Milestone} {cs : List Call} → Passes ms cs → Passes (granted ∷ ms) (approves ∷ cs)
  hand_in :
      {ms : List Milestone} {cs : List Call} → Passes ms cs → Passes (handed_in ∷ ms) (submits ∷ cs)
  close :
      {ms : List Milestone} {cs : List Call} → Passes ms cs → Passes (closed ∷ ms) (accepts ∷ cs)

Passes-tail :
    {m : Milestone} {ms : List Milestone} {cs : List Call} → Passes (m ∷ ms) cs → Passes ms cs
Passes-tail (skip c p) = skip c (Passes-tail p)
Passes-tail (plan p) = skip start p
Passes-tail (ask q p) = skip (request q) p
Passes-tail (grant p) = skip approves p
Passes-tail (hand_in p) = skip submits p
Passes-tail (close p) = skip accepts p

-- What the calls must still hold for a task in a state to end as completed.
abbrev Needs : TaskState → List Call → Type 0
Needs draft = Passes (planned ∷ asked ∷ granted ∷ handed_in ∷ closed ∷ [])
Needs planning = Passes (asked ∷ granted ∷ handed_in ∷ closed ∷ [])
Needs awaiting_approval = Passes (granted ∷ handed_in ∷ closed ∷ [])
Needs executing = Passes (handed_in ∷ closed ∷ [])
Needs paused = Passes (handed_in ∷ closed ∷ [])
Needs awaiting_review = Passes (closed ∷ [])
Needs completed = λ cs. Unit
Needs failed = λ cs. ⊥
Needs cancelled = λ cs. ⊥

Needs-skip : (c : Call) (s : TaskState) (cs : List Call) → Needs s cs → Needs s (c ∷ cs)
Needs-skip c draft cs p = skip c p
Needs-skip c planning cs p = skip c p
Needs-skip c awaiting_approval cs p = skip c p
Needs-skip c executing cs p = skip c p
Needs-skip c paused cs p = skip c p
Needs-skip c awaiting_review cs p = skip c p
Needs-skip c completed cs p = tt
Needs-skip c failed cs p = p
Needs-skip c cancelled cs p = p

along : {s s' : TaskState} (cs : List Call) → some s ≡ some s' → Needs s' cs → Needs s cs
along cs e p = subst (λ s. Needs s cs) (sym (some-injective _ _ e)) p

-- One edge of the graph passes at most one milestone.
step_back :
    (c : Call) (s : TaskState) {s' : TaskState} (cs : List Call)
    → target c s ≡ some s'
    → Needs s' cs
    → Needs s (c ∷ cs)
unfolding target
step_back (mode m) s cs e p = Needs-skip (mode m) s cs (along cs e p)
step_back start draft cs e p = plan (along cs e p)
step_back (request q) planning cs e p = ask q (along cs e p)
step_back approves awaiting_approval cs e p = grant (along cs e p)
step_back rejects awaiting_approval cs e p = absurd (along cs e p)
step_back pauses executing cs e p = skip pauses (along cs e p)
step_back resumes paused cs e p = skip resumes (along cs e p)
step_back submits executing cs e p = hand_in (along cs e p)
step_back revises awaiting_review cs e p = skip revises (Passes-tail (along cs e p))
step_back accepts awaiting_review cs e p = close done
step_back _ _ cs e p = cc

-- A call that fails has kept the task, and one that succeeds has moved it along an edge.
Needs-perform :
    (c : Call) (t : Task) (cs : List Call) → Needs (perform c t).1.state cs → Needs t.state (c ∷ cs)
Needs-perform c t cs p = go (perform c t).0 (perform c t).1 (perform-Outcome c t) p
  where
    go :
        (r : Result (Unit {0}) TaskError) (t' : Task)
        → Outcome c t (r, t')
        → Needs t'.state cs
        → Needs t.state (c ∷ cs)
    go (ok u) t' o p = step_back c t.state cs o.0 p
    go (err e) t' o p = Needs-skip c t.state cs (subst (λ (u : Task). Needs u.state cs) o.1 p)

run-Needs : (t : Task) (cs : List Call) → (run t cs).state ≡ completed → Needs t.state cs
unfolding run
run-Needs t [] e = subst (λ s. Needs s []) (sym e) tt
run-Needs t (c ∷ cs) e = Needs-perform c t cs (run-Needs (perform c t).1 cs e)

-- A task that was made by `Task::new` and is completed after some calls, of which any may have
-- failed, has seen among them, in this order: `start_planning`, `request_approval`, `approve`,
-- `submit_for_review` and `accept`.
pub completed-Passes :
    (id : TaskId) (goal : String) (budget : ResourceBudget) {t : Task} (cs : List Call)
    → new id goal budget ≡ ok t
    → (run t cs).state ≡ completed
    → Passes (planned ∷ asked ∷ granted ∷ handed_in ∷ closed ∷ []) cs
unfolding new
completed-Passes id goal budget {t} cs made e = subst (λ s. Needs s cs) fresh (run-Needs t cs e)
  where
    fresh : t.state ≡ draft
    fresh = ground arith
