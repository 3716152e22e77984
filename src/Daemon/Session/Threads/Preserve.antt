-- ===== src/Daemon/Session/Threads/Preserve.antt =====
-- The second critical section and a cancellation keep the invariant.
use kesharon.Prelude.{
  ◌≡◌, refl, ◌∙◌, String, true, false, none, List, ◌∷◌, ◌++◌, arith, length-set, Result,
  Option-cases, inl, inr,
}
use kesharon.HashMap.{get, contains_key-get}
use kesharon.Application.Error.{ApplicationError}
use kesharon.Application.Ports.{StateRepository}
use kesharon.Domain.Project.{Project}
use kesharon.Daemon.Session.State.{Memory, World, cancel_request, open_project as fp_open}
use kesharon.Daemon.Session.Open.{settle, finish}
use kesharon.Daemon.Session.Open.Settle.{SameLedger, settle-SameLedger}
use kesharon.Daemon.Session.Open.Retry.{finish_lem}
use kesharon.Daemon.Session.Cancel.{find_target, cancel_target, cancel_locked}
use kesharon.Daemon.Session.Threads.{Operation}
use kesharon.Daemon.Session.Threads.Flags.{StaySet-set}
use kesharon.Daemon.Session.Threads.Coherent.{IsCoherent}
use kesharon.Daemon.Session.Threads.Begin.{IsQuiet, IsQuiet-refl}
use kesharon.Daemon.Session.Threads.Maps.{
  without, IsCoherent-quiet, IsCoherent-without, IsCoherent-remembering, without-free,
  without-not_done,
}

SameLedger-IsQuiet : {m m' : Memory} → SameLedger m m' → IsQuiet m m'
SameLedger-IsQuiet {m = m} {m' = m'} s = record {
  active = s.active;
  in_flight = s.in_flight;
  completed = s.completed;
  completed_order = s.completed_order;
  completed_requests = s.completed_requests;
  completed_request_order = s.completed_request_order;
  flags = rw s.flags (omega arith);
  kept = rw s.flags (λ a h. h);
}

module _ {S : Type 0} (id : String) (ports : StateRepository S) where
  pub finished :
      (w : World S) (before after : List Operation) (op : Operation)
      (result : Result Project ApplicationError)
      → w.poisoned ≡ false
      → IsCoherent w.memory (before ++ op ∷ after)
      → IsCoherent
          (finish id ports w op.request_id op.key (fp_open op.path) result).1.memory
          (before ++ after)
  finished w before after op result open_lock c =
      let same = settle-SameLedger id (without w.memory op) op.request_id ports w.storage result in
      let m' = (settle id ports (without w.memory op) w.storage op.request_id result).0.1 in
      rw (finish_lem id ports w op.request_id op.key (fp_open op.path) result open_lock) (
        IsCoherent-remembering m' (before ++ after) op.key (fp_open op.path) op.request_id
          (settle id ports (without w.memory op) w.storage op.request_id result).0.0
          (rw same.in_flight (without-free w.memory before after op c))
          (rw same.completed (without-not_done w.memory before after op c))
          (IsCoherent-quiet (without w.memory op) m' (before ++ after) (SameLedger-IsQuiet same)
            (IsCoherent-without w.memory before after op c)))

pub find_target-IsQuiet : (m : Memory) (target : String) → IsQuiet m (find_target m target).1
unfolding find_target
find_target-IsQuiet m target = elim (Option-cases (get m.active target)) [
  | inl e ↦ rw (e, find_target) (IsQuiet-refl m)
  | inr (op, e) ↦
      rw (e, find_target)
        (record {
          active = refl;
          in_flight = refl;
          completed = refl;
          completed_order = refl;
          completed_requests = refl;
          completed_request_order = refl;
          flags = omega (arith, length-set m.flags op.cancellation true);
          kept = StaySet-set m.flags op.cancellation;
        })
]

module _ (m : Memory) (request_id key target : String) (ops : List Operation)
    (c : IsCoherent m ops) where
  cancelled_target :
      get m.completed key ≡ none
      → get m.in_flight key ≡ none
      → IsCoherent (cancel_target m request_id key target).1 ops
  unfolding cancel_target
  cancelled_target n f =
      let q = find_target-IsQuiet m target in
      let m' = (find_target m target).1 in
      IsCoherent-remembering m' ops key (cancel_request target) request_id
        (cancel_target m request_id key target).0
        (rw q.in_flight (contains_key-get m.in_flight key ∙ rw f refl)) (rw q.completed n)
        (IsCoherent-quiet m m' ops q c)

  pub cancelled : IsCoherent (cancel_locked m request_id key target).1 ops
  unfolding cancel_locked
  cancelled = elim (Option-cases (get m.completed key)) [
    | inr (x, e) ↦ rw (e, cancel_locked) c
    | inl e ↦ elim (Option-cases (get m.in_flight key)) [
      | inr (x, f) ↦ rw (e, f, cancel_locked) c
      | inl f ↦ rw (e, f, cancel_locked) (cancelled_target e f)
    ]
  ]
