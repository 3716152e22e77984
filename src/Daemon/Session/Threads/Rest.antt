-- ===== src/Daemon/Session/Threads/Rest.antt =====
-- The threads can always come to rest: an operation needs nothing but its own steps to end.
use mathlib.Core.Path.{subst}
use kesharon.Prelude.{
  ◌≡◌, refl, ap, ◌∙◌, String, Bool, false, List, [], ◌∷◌, Result, err, Bool-cases, inl, inr,
}
use kesharon.HashMap.{contains_key}
use kesharon.Application.Error.{ApplicationError, cancelled}
use kesharon.Application.OpenProject.{OpenProjectCommand, build}
use kesharon.Application.Ports.{
  RepositoryInspection, RepositoryService, IdGenerator, StateRepository,
}
use kesharon.Domain.Project.{Project}
use kesharon.Daemon.Session.State.{World, open_project as fp_open}
use kesharon.Daemon.Session.Open.{finish, is_set}
use kesharon.Daemon.Session.Open.Retry.{finish_lem}
use kesharon.Daemon.Session.Threads.{
  Stage, checking, inspecting, inspected, settled, Operation, Machine, Reach, advance,
  advance_stage, advances, finishes, here, next,
}
use kesharon.Daemon.Session.Threads.Coherent.{IsCoherent}
use kesharon.Daemon.Session.Threads.Execute.{from_inspection, advance_stage-execute}
use kesharon.Daemon.Session.Threads.Steps.{Reach-IsCoherent}

-- A stage at which the operation has its result.
abbrev IsSettled : Stage → Type 0
IsSettled stage = (result : Result Project ApplicationError) × (stage ≡ settled result)

module _ (flag : Bool) (service : RepositoryService) (gen : IdGenerator)
    (command : OpenProjectCommand) where
  abbrev step_on : Stage → Stage
  step_on stage = advance_stage flag service gen command stage

  kept-IsSettled : (stage : Stage) → IsSettled stage → IsSettled (step_on stage)
  unfolding advance_stage
  kept-IsSettled stage (result, e) = rw e (result, refl)

  inspected-IsSettled : (i : RepositoryInspection) → IsSettled (step_on (inspected i))
  unfolding advance_stage
  inspected-IsSettled i = elim (Bool-cases flag) [
    | inl e ↦ rw e (err cancelled, refl)
    | inr e ↦ rw e (build gen command i, refl)
  ]

  inspecting-IsSettled : IsSettled (step_on (step_on inspecting))
  inspecting-IsSettled = (
    _,
    from_inspection service gen command flag flag (service.inspect command.requested_path) refl,
  )

  -- Three steps are enough, wherever the operation stands.
  pub advance_stage-IsSettled : (stage : Stage) → IsSettled (step_on (step_on (step_on stage)))
  unfolding advance_stage
  advance_stage-IsSettled checking = (_, advance_stage-execute service gen command flag flag flag)
  advance_stage-IsSettled inspecting = kept-IsSettled _ inspecting-IsSettled
  advance_stage-IsSettled (inspected i) =
      kept-IsSettled _ (kept-IsSettled _ (inspected-IsSettled i))
  advance_stage-IsSettled (settled result) = (result, refl)

module _ {S : Type 0} (id : String) (ports : StateRepository S) where
  Reach-trans : (x y z : Machine S) → Reach id ports x y → Reach id ports y z → Reach id ports x z
  Reach-trans x y _ r here = r
  Reach-trans x y z r (next {y = v} s step) = next (Reach-trans x y v r s) step

  finish-poisoned :
      (w : World S) (op : Operation) (result : Result Project ApplicationError)
      → w.poisoned ≡ false
      → (finish id ports w op.request_id op.key (fp_open op.path) result).1.poisoned ≡ false
  finish-poisoned w op result free =
      ap (λ r. r.1.poisoned)
        (finish_lem id ports w op.request_id op.key (fp_open op.path) result free)
      ∙ free

  module _ (service : RepositoryService) (gen : IdGenerator) where
    abbrev moved : Machine S → Operation → Operation
    moved x op = advance x.world.memory service gen op

    -- The first operation ends: the machine without it is reached.
    head_ends :
        (x : Machine S) (op : Operation) (rest : List Operation)
        → x.world.poisoned ≡ false
        → x.operations ≡ op ∷ rest
        → (y : Machine S) × Reach id ports x y × (y.operations ≡ rest) × (y.world.poisoned ≡ false)
    unfolding advance
    head_ends x op rest free e =
        let op1 = moved x op in
        let op2 = moved x op1 in
        let op3 = moved x op2 in
        let (result, s) =
          advance_stage-IsSettled (is_set x.world.memory op.cancellation) service gen
            (record { requested_path = op.path; trusted = false }) op.stage in
        (
          record {
            world = (finish id ports x.world op.request_id op.key (fp_open op.path) result).1;
            operations = rest;
          },
          next
              (next
                (next (next here (advances [] rest op service gen e refl))
                  (advances [] rest op1 service gen refl refl))
                (advances [] rest op2 service gen refl refl))
              (finishes [] rest op3 result free s refl refl),
          refl,
          finish-poisoned x.world op result free,
        )

    drained :
        (ops : List Operation) (x : Machine S)
        → x.world.poisoned ≡ false
        → x.operations ≡ ops
        → (y : Machine S) × Reach id ports x y × (y.operations ≡ [])
    drained [] x free e = (x, here, e)
    drained (op ∷ ops) x free e =
        let (y, r, o, p) = head_ends x op ops free e in
        let (z, s, done) = drained ops y p o in (z, Reach-trans x y z r s, done)

    -- From a coherent machine whose lock is not poisoned, and whatever the inspection and the
    -- generator answer, there are further steps to a machine where no operation runs, no identifier is
    -- active and no key is in flight.
    pub Reach-rest :
        (x : Machine S)
        → x.world.poisoned ≡ false
        → IsCoherent x.world.memory x.operations
        → (y : Machine S) × Reach id ports x y
          × (y.operations ≡ [])
          × ((k : String)
              → (contains_key y.world.memory.active k ≡ false)
                × (contains_key y.world.memory.in_flight k ≡ false))
    Reach-rest x free c =
        let (y, r, done) = drained x.operations x free refl in
        let c' = subst (IsCoherent y.world.memory) done (Reach-IsCoherent id ports x y r c) in
        (y, r, done, λ k. (c'.active.same k, c'.in_flight.same k))
