-- ===== src/Daemon/Session/Threads/Begin.antt =====
-- The first critical section, read backwards: what its result says of the memory.
use kesharon.Prelude.{
  ℕ, ◌≤◌, ◌≡◌, refl, ◌∙◌, String, false, none, [], ◌∷◌, ◌++◌, arith, length, length-append, Result,
  ok, err, Bool-cases, Option-cases, inl, inr,
}
use kesharon.HashMap.{get, contains_key, insert, contains_key-get}
use kesharon.HashMap.Size.{remove-insert}
use kesharon.Daemon.Session.State.{SessionError, Memory, open_project as fp_open}
use kesharon.Daemon.Session.Emit.{emit_locked}
use kesharon.Daemon.Session.Emit.Frame.{SameCore, emit_locked-SameCore}
use kesharon.Daemon.Session.Threads.Flags.{StaySet, StaySet-append}
use kesharon.Daemon.Session.Open.{
  Begun, replied, started, register, started_or_undone, start, begin, remove_operation,
}

-- The second memory has the maps and the ledger of the first, and its flags.
pub record IsQuiet (m m' : Memory) : Type 0 where
  pub active : m'.active ≡ m.active
  pub in_flight : m'.in_flight ≡ m.in_flight
  pub completed : m'.completed ≡ m.completed
  pub completed_order : m'.completed_order ≡ m.completed_order
  pub completed_requests : m'.completed_requests ≡ m.completed_requests
  pub completed_request_order : m'.completed_request_order ≡ m.completed_request_order
  pub flags : length m.flags ≤ length m'.flags
  pub kept : StaySet m.flags m'.flags

-- The second memory has one more operation, whose identifier and key were free.
pub record IsStarted (m : Memory) (request_id key path : String) (a : ℕ) (m' : Memory)
    : Type 0 where
  pub not_done : get m.completed key ≡ none
  pub not_running : get m.in_flight key ≡ none
  pub not_active : contains_key m.active request_id ≡ false
  pub address : a ≡ length m.flags
  pub active : m'.active ≡ insert m.active request_id (record { cancellation = a })
  pub in_flight : m'.in_flight ≡ insert m.in_flight key (fp_open path)
  pub completed : m'.completed ≡ m.completed
  pub completed_order : m'.completed_order ≡ m.completed_order
  pub completed_requests : m'.completed_requests ≡ m.completed_requests
  pub completed_request_order : m'.completed_request_order ≡ m.completed_request_order
  pub flags : m'.flags ≡ m.flags ++ false ∷ []

abbrev pub Begins : Memory → (request_id key path : String) → Begun × Memory → Type 0
Begins m request_id key path (replied response, m') = IsQuiet m m'
Begins m request_id key path (started a, m') = IsStarted m request_id key path a m'

pub IsQuiet-refl : (m : Memory) → IsQuiet m m
IsQuiet-refl m = record {
  active = refl;
  in_flight = refl;
  completed = refl;
  completed_order = refl;
  completed_requests = refl;
  completed_request_order = refl;
  flags = omega arith;
  kept = λ a h. h;
}

module _ (m : Memory) (request_id key path : String) where
  module _ (not_done : get m.completed key ≡ none) (not_running : get m.in_flight key ≡ none)
      (not_active : contains_key m.active request_id ≡ false) where
    after_event :
        (r : Result (Unit {0}) SessionError) (m' : Memory)
        → SameCore (register m request_id key (fp_open path)) m'
        → Begins m request_id key path (started_or_undone (length m.flags) request_id key (r, m'))
    unfolding started_or_undone register remove_operation
    after_event (ok _) m' c = record {
      not_done = not_done;
      not_running = not_running;
      not_active = not_active;
      address = refl;
      active = c.active;
      in_flight = c.in_flight;
      completed = c.completed;
      completed_order = c.completed_order;
      completed_requests = c.completed_requests;
      completed_request_order = c.completed_request_order;
      flags = c.flags;
    }
    after_event (err e) m' c = record {
      active = rw c.active (remove-insert m.active request_id _ not_active);
      in_flight = rw c.in_flight (
          remove-insert m.in_flight key _ (contains_key-get m.in_flight key ∙ rw not_running refl));
      completed = c.completed;
      completed_order = c.completed_order;
      completed_requests = c.completed_requests;
      completed_request_order = c.completed_request_order;
      flags = rw c.flags (omega (arith, length-append m.flags (false ∷ [])));
      kept = rw c.flags (StaySet-append m.flags false);
    }

  pub begin_lem : (id : String) → Begins m request_id key path (begin id m request_id key path)
  unfolding begin start
  begin_lem id = elim (Option-cases (get m.completed key)) [
    | inr (c, e) ↦ rw (e, begin) (IsQuiet-refl m)
    | inl e ↦ elim (Option-cases (get m.in_flight key)) [
      | inr (c, f) ↦ rw (e, f, begin) (IsQuiet-refl m)
      | inl f ↦ elim (Bool-cases (contains_key m.active request_id)) [
        | inl g ↦ rw (e, f, g, begin) (IsQuiet-refl m)
        | inr g ↦
            rw (e, f, g, begin)
              (after_event e f g (emit_locked id (register m request_id key (fp_open path)) _).0 _
                (emit_locked-SameCore id (register m request_id key (fp_open path)) _))
      ]
    ]
  ]
