-- ===== src/Daemon/Session/Threads/Cancels.antt =====
-- A cancellation that was accepted reaches its operation, whatever the other threads do in between.
use mathlib.Core.Path.{subst}
use kesharon.Prelude.{
  ℕ, zero, suc, ◌<◌, ◌≡◌, refl, sym, ap, ◌∙◌, ◌⊎◌, inl, inr, String, Bool, true, false, none, some,
  List, [], ◌∷◌, ◌++◌, arith, length, set, err, Option-cases,
}
use kesharon.HashMap.{get}
use kesharon.Application.Error.{cancelled}
use kesharon.Application.Ports.{
  RepositoryInspection, RepositoryService, IdGenerator, StateRepository,
}
use kesharon.Protocol.Response.{success, cancellation, accepted}
use kesharon.Daemon.Session.State.{Memory, open_project as fp_open}
use kesharon.Daemon.Session.Open.{is_set}
use kesharon.Daemon.Session.Open.Settle.{settle-SameLedger}
use kesharon.Daemon.Session.Open.Retry.{finish_lem}
use kesharon.Daemon.Session.Cancel.{find_target, cancel_target, cancel_locked, subscribe_locked}
use kesharon.Daemon.Session.Threads.{
  Stage, checking, inspected, settled, Operation, Machine, Step, Reach, advance, opens, answers,
  advances, finishes, cancels, subscribes, receives, hangs_up, here, next,
}
use kesharon.Daemon.Session.Threads.Flags.{StaySet, StaySet-append, flag_at, is_set_lem}
use kesharon.Daemon.Session.Threads.Coherent.{AllOwn-split, IsCoherent}
use kesharon.Daemon.Session.Threads.Begin.{Begins, begin_lem}
use kesharon.Daemon.Session.Threads.Maps.{without}
use kesharon.Daemon.Session.Threads.Preserve.{find_target-IsQuiet}
use kesharon.Daemon.Session.Threads.Steps.{receive-IsQuiet, hang_up-IsQuiet}

cancel_locked-StaySet :
    (m : Memory) (request_id key target : String)
    → StaySet m.flags (cancel_locked m request_id key target).1.flags
unfolding cancel_locked cancel_target
cancel_locked-StaySet m request_id key target = elim (Option-cases (get m.completed key)) [
  | inr (x, e) ↦ rw (e, cancel_locked) (λ a h. h)
  | inl e ↦ elim (Option-cases (get m.in_flight key)) [
    | inr (x, f) ↦ rw (e, f, cancel_locked) (λ a h. h)
    | inl f ↦ rw (e, f, cancel_locked) (find_target-IsQuiet m target).kept
  ]
]

flag_at-set : (flags : List Bool) (a : ℕ) → a < length flags → flag_at (set flags a true) a ≡ true
flag_at-set [] a h = ground arith
flag_at-set (x ∷ xs) zero h = refl
flag_at-set (x ∷ xs) (suc a) h = flag_at-set xs a (omega arith)

-- The stages that end in a reading of the flag.
abbrev pub Reads : Stage → Type 0
Reads stage = (stage ≡ checking) ⊎ ((i : RepositoryInspection) × (stage ≡ inspected i))

advance_set :
    (m : Memory) (service : RepositoryService) (gen : IdGenerator) (op : Operation)
    → is_set m op.cancellation ≡ true
    → Reads op.stage
    → (advance m service gen op).stage ≡ settled (err cancelled)
unfolding advance
advance_set m service gen op e (inl s) = rw (s, e) refl
advance_set m service gen op e (inr (i, s)) = rw (s, e) refl

module _ {S : Type 0} (id : String) (ports : StateRepository S) where
  Step-StaySet :
      (x y : Machine S) → Step id ports x y → StaySet x.world.memory.flags y.world.memory.flags
  unfolding subscribe_locked
  Step-StaySet x y (opens op m _ _ b e) =
      let s =
        subst (Begins x.world.memory op.request_id op.key op.path) b
          (begin_lem x.world.memory op.request_id op.key op.path id) in
      rw (e, s.flags) (StaySet-append x.world.memory.flags false)
  Step-StaySet x y (answers request_id key path response m _ b e) =
      rw e
        (subst (Begins x.world.memory request_id key path) b
          (begin_lem x.world.memory request_id key path id)).kept
  Step-StaySet x y (advances before after op service gen o e) = rw e (λ a h. h)
  Step-StaySet x y (finishes before after op result open_lock _ o e) =
      let same =
        settle-SameLedger id (without x.world.memory op) op.request_id ports x.world.storage
          result in
      rw
        (
          e,
          finish_lem id ports x.world op.request_id op.key (fp_open op.path) result open_lock,
          same.flags,
        )
        (λ a h. h)
  Step-StaySet x y (cancels request_id key target _ e) =
      rw e (cancel_locked-StaySet x.world.memory request_id key target)
  Step-StaySet x y (subscribes _ e) = rw e (λ a h. h)
  Step-StaySet x y (receives address ch message rest _ _ e) =
      rw e (receive-IsQuiet x.world.memory address rest).kept
  Step-StaySet x y (hangs_up address e) = rw e (hang_up-IsQuiet x.world.memory address).kept

  Reach-StaySet :
      (x y : Machine S) → Reach id ports x y → StaySet x.world.memory.flags y.world.memory.flags
  Reach-StaySet x _ here a h = h
  Reach-StaySet x z (next {y = y} r s) a h = Step-StaySet y z s a (Reach-StaySet x y r a h)

module _ (m : Memory) (request_id key target : String) (a : ℕ)
    (g : get m.active target ≡ some (record { cancellation = a })) where
  found : find_target m target ≡ (accepted, record m { flags = set m.flags a true })
  unfolding find_target
  found = rw (g, find_target) refl

  target_accepts :
      (cancel_target m request_id key target).0 ≡ success request_id (cancellation target accepted)
  unfolding cancel_target
  target_accepts = ap (λ r. success request_id (cancellation target r.0)) found

  target_flags : (cancel_target m request_id key target).1.flags ≡ set m.flags a true
  unfolding cancel_target
  target_flags = ap (λ r. r.1.flags) found

  accepts :
      get m.completed key ≡ none
      → get m.in_flight key ≡ none
      → a < length m.flags
      → ((cancel_locked m request_id key target).0
          ≡ success request_id (cancellation target accepted))
        × (is_set (cancel_locked m request_id key target).1 a ≡ true)
  unfolding cancel_locked
  accepts e f h = (
    rw (e, f, cancel_locked) target_accepts,
    is_set_lem _ a
        ∙ rw (e, f, cancel_locked)
            (ap (λ flags. flag_at flags a) target_flags ∙ flag_at-set m.flags a h),
  )

-- A cancellation with a fresh key, of an operation that runs, is accepted; and whatever steps the
-- threads take from there, the operation's next reading of its flag, before the inspection or after
-- it, ends it as cancelled.
module _ {S : Type 0} (id : String) (ports : StateRepository S) (x y : Machine S)
    (before after : List Operation) (op : Operation) (request_id key : String)
    (service : RepositoryService) (gen : IdGenerator) where
  pub cancel_locked-advance :
      IsCoherent x.world.memory x.operations
      → x.operations ≡ before ++ op ∷ after
      → get x.world.memory.completed key ≡ none
      → get x.world.memory.in_flight key ≡ none
      → Reach id ports
          (record x {
            world = record x.world {
              memory = (cancel_locked x.world.memory request_id key op.request_id).1;
            };
          })
          y
      → (later : Operation) → later.cancellation ≡ op.cancellation
      → Reads later.stage
      → ((cancel_locked x.world.memory request_id key op.request_id).0
          ≡ success request_id (cancellation op.request_id accepted))
        × ((advance y.world.memory service gen later).stage ≡ settled (err cancelled))
  cancel_locked-advance c o e f r later same reads =
      let owned =
        (AllOwn-split x.world.memory before (op ∷ after)
          (subst (λ ops. IsCoherent x.world.memory ops) o c).owned).1.0 in
      let (reply, flag) =
        accepts x.world.memory request_id key op.request_id op.cancellation owned.0 e f owned.2 in
      (
        reply,
        advance_set y.world.memory service gen later
            (is_set_lem y.world.memory later.cancellation
              ∙ rw same (
                  Reach-StaySet id ports _ y r op.cancellation
                    (sym (is_set_lem _ op.cancellation) ∙ flag)))
            reads,
      )
