-- ===== src/Domain/Task/Lifecycle.antt =====
-- Histories of a task: the methods of crates/kesharon-domain/src/task.rs in any order.
pub mod Review
pub mod Terminal
pub mod Tests
use kesharon.Prelude.{
  ℕ, String, ◌≡◌, refl, ◌≢◌, ap, ◌⊎◌, inl, inr, Bool, true, false, Option, none, some, List, [],
  ◌∷◌, arith, Result, ok, err, if◌then◌else◌, Bool-cases,
}
use kesharon.Domain.Task.Error.{TaskError, terminal_state}
use kesharon.Domain.Task.State.{
  TaskState, draft, planning, awaiting_approval, executing, paused, awaiting_review, completed,
  failed, cancelled, ExecutionMode, is_terminal, state_eq,
}
use kesharon.Domain.Task.Parts.{TaskPlan}
use kesharon.Domain.Task.Machine.{
  Task, transition, set_execution_mode, start_planning, request_approval, approve, reject, pause,
  resume, submit_for_review, request_revision, accept,
}

-- A call of one of the methods on `&mut self`.
pub data Call : Type 0 where
  mode : ExecutionMode → Call
  start : Call
  request : TaskPlan → Call
  approves rejects pauses resumes submits revises accepts : Call

unfoldable pub perform : Call → Task → Result (Unit {0}) TaskError × Task
unfolding set_execution_mode start_planning request_approval approve reject pause resume
    submit_for_review request_revision accept
perform (mode m) t = (ok tt, set_execution_mode t m)
perform start t = start_planning t
perform (request p) t = request_approval t p
perform approves t = approve t
perform rejects t = reject t
perform pauses t = pause t
perform resumes t = resume t
perform submits t = submit_for_review t
perform revises t = request_revision t
perform accepts t = accept t

-- The calls in turn; one that fails is passed over.
unfoldable pub run : Task → List Call → Task
run t [] = t
run t (c ∷ cs) = run (perform c t).1 cs

-- The lifecycle as a graph, independently of the code: where a call leads, if it is allowed.
unfoldable pub target : Call → TaskState → Option TaskState
target (mode m) s = some s
target start draft = some planning
target (request p) planning = some awaiting_approval
target approves awaiting_approval = some executing
target rejects awaiting_approval = some cancelled
target pauses executing = some paused
target resumes paused = some executing
target submits executing = some awaiting_review
target revises awaiting_review = some executing
target accepts awaiting_review = some completed
target _ _ = none

-- What a call may do to a task: move along an edge and keep the identity, or be refused and keep
-- the whole task.
abbrev pub Outcome : Call → Task → Result (Unit {0}) TaskError × Task → Type 0
Outcome c t (ok _, t') =
    (target c t.state ≡ some t'.state)
    × (t'.id ≡ t.id)
    × (t'.goal ≡ t.goal)
    × (t'.budget ≡ t.budget)
Outcome c t (err e, t') = (target c t.state ≡ none) × (t' ≡ t)

-- Every method either moves the task along the edge of the lifecycle graph that leaves its state,
-- with its identifier, goal and budget kept, or fails where the graph has no such edge, with the
-- whole task kept.
pub perform-Outcome : (c : Call) (t : Task) → Outcome c t (perform c t)
unfolding perform target
perform-Outcome (mode m) t = ground arith
perform-Outcome start t = ground arith
perform-Outcome (request p) t = ground arith
perform-Outcome approves t = ground arith
perform-Outcome _ t = ground arith
