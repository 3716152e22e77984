-- ===== src/Daemon/Session/Open/Settle.antt =====
-- What the end of an operation leaves alone in the memory, before the ledger is written.
use kesharon.Prelude.{◌≡◌, refl, String, Option, none, some, Result, ok, err, Bool-cases, inl, inr}
use kesharon.Application.Error.{ApplicationError, cancelled}
use kesharon.Application.Ports.{StateRepository}
use kesharon.Domain.Project.{Project}
use kesharon.Protocol.Response.{ServerResponse}
use kesharon.Protocol.Event.{DaemonEventPayload}
use kesharon.Daemon.Session.State.{SessionError, Memory, Mutex}
use kesharon.Daemon.Session.Emit.{emit_locked}
use kesharon.Daemon.Session.Emit.Frame.{SameCore, emit_locked-SameCore}
use kesharon.Daemon.Session.Open.{
  reply_after, opened_after, complete_success, complete_cancellation, complete_failure, after_save,
  settle,
}

-- Two memories with the same operations, ledger and flags.
pub record SameLedger (m m' : Memory) : Type 0 where
  pub active : m'.active ≡ m.active
  pub in_flight : m'.in_flight ≡ m.in_flight
  pub completed : m'.completed ≡ m.completed
  pub completed_order : m'.completed_order ≡ m.completed_order
  pub completed_requests : m'.completed_requests ≡ m.completed_requests
  pub completed_request_order : m'.completed_request_order ≡ m.completed_request_order
  pub flags : m'.flags ≡ m.flags

SameLedger-refl : (m : Memory) → SameLedger m m
SameLedger-refl m = record {
  active = refl;
  in_flight = refl;
  completed = refl;
  completed_order = refl;
  completed_requests = refl;
  completed_request_order = refl;
  flags = refl;
}

SameCore→SameLedger : {m m' : Memory} → SameCore m m' → SameLedger m m'
SameCore→SameLedger c = record {
  active = c.active;
  in_flight = c.in_flight;
  completed = c.completed;
  completed_order = c.completed_order;
  completed_requests = c.completed_requests;
  completed_request_order = c.completed_request_order;
  flags = c.flags;
}

replied-SameLedger :
    (m m' : Memory) (request_id : String) (response : ServerResponse)
    (r : Result (Unit {0}) SessionError)
    → SameLedger m m'
    → SameLedger m (reply_after request_id response (r, m')).1
replied-SameLedger m m' request_id response (ok _) c = c
replied-SameLedger m m' request_id response (err e) c = c

opened-SameLedger :
    (m m' : Memory) (request_id : String) (p : Project) (r : Result (Unit {0}) SessionError)
    → SameLedger m m'
    → SameLedger m (opened_after request_id p (r, m')).1
opened-SameLedger m m' request_id p (ok _) c = record {
  active = c.active;
  in_flight = c.in_flight;
  completed = c.completed;
  completed_order = c.completed_order;
  completed_requests = c.completed_requests;
  completed_request_order = c.completed_request_order;
  flags = c.flags;
}
opened-SameLedger m m' request_id p (err e) c = c

module _ (id : String) (m : Memory) (request_id : String) where
  emitted : (payload : DaemonEventPayload) → SameLedger m (emit_locked id m payload).1
  emitted payload = SameCore→SameLedger (emit_locked-SameCore id m payload)

  complete_success-SameLedger : (p : Project) → SameLedger m (complete_success id m request_id p).1
  unfolding complete_success
  complete_success-SameLedger p =
      opened-SameLedger m _ request_id p (emit_locked id m _).0 (emitted _)

  complete_cancellation-SameLedger : SameLedger m (complete_cancellation id m request_id).1
  unfolding complete_cancellation
  complete_cancellation-SameLedger =
      replied-SameLedger m _ request_id _ (emit_locked id m _).0 (emitted _)

  complete_failure-SameLedger :
      (e : ApplicationError) → SameLedger m (complete_failure id m request_id e).1
  unfolding complete_failure
  complete_failure-SameLedger e =
      replied-SameLedger m _ request_id _ (emit_locked id m _).0 (emitted _)

  module _ {S : Type 0} (ports : StateRepository S) where
    after_save-SameLedger :
        (p : Project) (r : Result (Unit {0}) ApplicationError)
        → SameLedger m (after_save id ports m request_id p r).1
    unfolding after_save
    after_save-SameLedger p (ok _) = complete_success-SameLedger p
    after_save-SameLedger p (err e) = complete_failure-SameLedger e

    pub settle-SameLedger :
        (store : Option (Mutex S)) (r : Result Project ApplicationError)
        → SameLedger m (settle id ports m store request_id r).0.1
    unfolding settle
    settle-SameLedger none (ok p) = complete_success-SameLedger p
    settle-SameLedger (some lock) (ok p) = elim (Bool-cases lock.poisoned) [
      | inl e ↦ rw e (SameLedger-refl m)
      | inr e ↦ rw e (after_save-SameLedger p (ports.save_project lock.inner p).0)
    ]
    settle-SameLedger store (err cancelled) = complete_cancellation-SameLedger
    settle-SameLedger store (err e) = complete_failure-SameLedger e
