-- ===== src/Daemon/Session/Threads/Tests.antt =====
-- The theorems on interleavings at a concrete machine: one operation runs, and is cancelled.
use kesharon.Prelude.{
  if◌then◌else◌, str_eq, ◌≡◌, refl, inl, String, false, none, [], ◌∷◌, map, elem, arith, ok, err,
}
use kesharon.HashMap.{get, contains_key, insert}
use kesharon.Application.Error.{cancelled}
use kesharon.Application.Ports.{RepositoryService, IdGenerator}
use kesharon.Protocol.Response.{with_request_id, success, cancellation, accepted}
use kesharon.Protocol.Event.{new_event, OperationSnapshot, operation_cancelled}
use kesharon.Daemon.Session.State.{new_state}
use kesharon.Daemon.Session.Emit.{emit_locked}
use kesharon.Daemon.Session.Emit.Sequence.{IsFeeding}
use kesharon.Daemon.Session.Open.{started, begin, start}
use kesharon.Daemon.Session.Reply.{idempotency_conflict}
use kesharon.Daemon.Session.Again.{opening, dispatch-opening}
use kesharon.Daemon.Session.Cancel.{dispatch, cancel_locked, subscribe_locked}
use kesharon.Daemon.Session.Cancel.Subscribe.{emit_all, subscribe_locked-IsFeeding}
use kesharon.Daemon.Session.Tests.{ports}
use kesharon.Daemon.Session.Threads.{
  checking, settled, Operation, Machine, Step, Reach, advance, opens, advances, here, next,
}
use kesharon.Daemon.Session.Threads.Coherent.{IsCoherent}
use kesharon.Daemon.Session.Threads.Rest.{Reach-rest}
use kesharon.Daemon.Session.Threads.Steps.{Step-IsCoherent, Reach-IsCoherent}
use kesharon.Daemon.Session.Threads.Cancels.{cancel_locked-advance}

abbrev pub service : RepositoryService
service = record {
  inspect = λ path. ok (record { canonical_root = "/work"; display_name = "work" });
}

abbrev pub gen : IdGenerator
gen = record { next_id = "p1" }

abbrev idle : Machine (Unit {0})
idle = record {
  world = record {
    memory = record { state = new_state; flags = []; channels = [] };
    poisoned = false;
    storage = none;
  };
  operations = [];
}

abbrev op : Operation
op = record { request_id = "r1"; key = "k1"; path = "/work"; cancellation = 0; stage = checking }

abbrev busy : Machine (Unit {0})
busy = record {
  world = record idle.world { memory = (begin "s" idle.world.memory "r1" "k1" "/work").1 };
  operations = op ∷ [];
}

abbrev later : Machine (Unit {0})
later = record busy { operations = advance busy.world.memory service gen op ∷ [] }

idle-IsCoherent : IsCoherent idle.world.memory idle.operations
unfolding contains_key
idle-IsCoherent = record {
  active = record { same = λ k. refl; distinct = tt; is_map = tt; size = refl };
  in_flight = record { same = λ k. refl; distinct = tt; is_map = tt; size = refl };
  owned = tt;
  ledger = record {
    completed = record { same = λ k. refl; distinct = tt; is_map = tt; size = refl };
    completed_fits = omega arith;
    requests = record { same = λ k. refl; distinct = tt; is_map = tt; size = refl };
    requests_fit = omega arith;
  };
  apart = λ k h. refl;
}

begins_work :
    begin "s" idle.world.memory "r1" "k1" "/work"
    ≡ (started 0, (begin "s" idle.world.memory "r1" "k1" "/work").1)
unfolding begin get contains_key start emit_locked new_event
begins_work = refl

dispatch-opening_example :
    let (response, w1) = dispatch "s" ports service gen idle.world (opening "r1" "k1" "/work") in
    dispatch "s" ports service gen w1 (opening "r2" "k1" "/other") ≡ (
      if str_eq "/work" "/other" then with_request_id response "r2" else idempotency_conflict "r2",
      w1,
    )
dispatch-opening_example =
    dispatch-opening "s" ports service gen idle.world "r1" "r2" "k1" "/work" "/other" 0 _ refl
      idle-IsCoherent.ledger begins_work

begins_busy : Step "s" ports idle busy
unfolding begin get contains_key start emit_locked new_event
begins_busy = opens op busy.world.memory refl refl refl refl

Reach-IsCoherent_example : IsCoherent later.world.memory later.operations
Reach-IsCoherent_example =
    Reach-IsCoherent "s" ports idle later
      (next (next here begins_busy) (advances [] [] op service gen refl refl)) idle-IsCoherent

busy-IsCoherent : IsCoherent busy.world.memory busy.operations
busy-IsCoherent = Step-IsCoherent "s" ports idle busy begins_busy idle-IsCoherent

Reach-rest_example :
    (y : Machine (Unit {0})) × Reach "s" ports busy y
    × (y.operations ≡ [])
    × ((k : String)
        → (contains_key y.world.memory.active k ≡ false)
          × (contains_key y.world.memory.in_flight k ≡ false))
Reach-rest_example = Reach-rest "s" ports service gen busy refl busy-IsCoherent

no_entry : get busy.world.memory.completed "k2" ≡ none
unfolding begin get contains_key start emit_locked new_event
no_entry = refl

not_running : get busy.world.memory.in_flight "k2" ≡ none
unfolding begin get contains_key insert start emit_locked new_event
not_running = refl

cancel_locked-advance_example :
    let (reply, m) = cancel_locked busy.world.memory "r2" "k2" "r1" in
    (reply ≡ success "r2" (cancellation "r1" accepted))
    × ((advance m service gen op).stage ≡ settled (err cancelled))
cancel_locked-advance_example =
    cancel_locked-advance "s" ports busy
      (record busy {
        world = record busy.world { memory = (cancel_locked busy.world.memory "r2" "k2" "r1").1 };
      })
      [] [] op "r2" "k2" service gen busy-IsCoherent refl no_entry not_running here op refl
      (inl refl)

subscribe_locked-IsFeeding_example :
    let (snapshot, m) = subscribe_locked "s" busy.world.memory in
    ((k : String)
      → elem k (map (λ (o : OperationSnapshot). o.request_id) snapshot.active_operations)
        ≡ contains_key busy.world.memory.active k)
    × IsFeeding "s" snapshot.last_sequence (emit_all "s" m (operation_cancelled "r1" ∷ []))
subscribe_locked-IsFeeding_example =
    subscribe_locked-IsFeeding "s" busy.world.memory (operation_cancelled "r1" ∷ [])
