-- ===== src/Daemon/Session/Tests.antt =====
-- The theorems on the session at concrete memories.
use kesharon.Prelude.{◌+◌, ◌<◌, ◌≡◌, ◌⊎◌, refl, true, false, none, some, [], ◌∷◌, arith, ok, err}
use kesharon.HashMap.{get, contains_key}
use kesharon.Application.Ports.{StateRepository}
use kesharon.Domain.Project.{Project}
use kesharon.Protocol.Response.{ServerResponse, with_request_id, internal_error, failure}
use kesharon.Protocol.Event.{operation_cancelled}
use kesharon.Daemon.Session.State.{
  new_state, sequence_exhausted, Memory, World, open_project, u64_max,
}
use kesharon.Daemon.Session.Ledger.{remember_completed}
use kesharon.Daemon.Session.Ledger.Invariant.{IsLedger, remember_completed-IsLedger}
use kesharon.Daemon.Session.Emit.{emit_locked}
use kesharon.Daemon.Session.Emit.Sequence.{IsFeeding, emit_locked-IsFeeding}
use kesharon.Daemon.Session.Emit.Frame.{SameCore, emit_locked_outcome}
use kesharon.Daemon.Session.Open.{replied, begin, finish}
use kesharon.Daemon.Session.Open.Retry.{begin-finish}

-- A storage that takes every write and holds nothing.
abbrev pub ports : StateRepository (Unit {0})
ports = record {
  save_project = λ s p. (ok tt, s);
  load_project = λ s id. ok none;
  load_last_active_project = λ s. ok none;
  save_task = λ s t. (ok tt, s);
  load_task = λ s id. ok none;
  load_active_task = λ s id. ok none;
  save_checkpoint = λ s id c. (ok tt, s);
  list_checkpoints = λ s id. ok [];
  record_idempotency = λ s k h r. (ok tt, s);
  find_idempotency = λ s k. ok none;
}

abbrev memory : Memory
memory = record {
  state = record new_state { sequence = 6; subscriber = some 0 };
  flags = [];
  channels = record { queue = []; connected = true } ∷ [];
}

abbrev world : World (Unit {0})
world = record { memory = memory; poisoned = false; storage = none }

abbrev opened : Project
opened = record {
  id = record { as_str = "p1" };
  display_name = "work";
  canonical_root = "/work";
  trusted = false;
}

nothing_completed : get memory.completed "k1" ≡ none
unfolding get
nothing_completed = refl

memory-IsLedger : IsLedger memory.state
unfolding contains_key
memory-IsLedger = record {
  completed = record { same = λ k. refl; distinct = tt; is_map = tt; size = refl };
  completed_fits = omega arith;
  requests = record { same = λ k. refl; distinct = tt; is_map = tt; size = refl };
  requests_fit = omega arith;
}

begin-finish_example :
    let (response, w') = finish "s" ports world "r1" "k1" (open_project "/work") (ok opened) in
    begin "s" w'.memory "r2" "k1" "/work" ≡ (replied (with_request_id response "r2"), w'.memory)
begin-finish_example =
    begin-finish "s" ports world "r1" "k1" "/work" (ok opened) "r2" "/work" refl memory-IsLedger
      nothing_completed

abbrev response : ServerResponse
response = failure "r1" internal_error "no"

remember_completed-IsLedger_example :
    IsLedger (remember_completed memory.state "k1" (open_project "/work") "r1" response)
remember_completed-IsLedger_example =
    remember_completed-IsLedger memory.state "k1" (open_project "/work") "r1" response
      memory-IsLedger

memory-IsFeeding : IsFeeding "s" 6 memory
memory-IsFeeding = record {
  channel = record { queue = []; connected = true };
  stands = refl;
  numbered = refl;
  fits = omega arith;
}

emit_locked-IsFeeding_example :
    IsFeeding "s" 6 (emit_locked "s" memory (operation_cancelled "r1")).1
emit_locked-IsFeeding_example =
    emit_locked-IsFeeding "s" 6 memory (operation_cancelled "r1") memory-IsFeeding

emit_locked_outcome_example :
    let r = emit_locked "s" memory (operation_cancelled "r1") in
    ((memory.sequence ≡ u64_max) × (r ≡ (err sequence_exhausted, memory)))
    ⊎ ((memory.sequence < u64_max)
        × (r.0 ≡ ok tt)
        × (r.1.sequence ≡ memory.sequence + 1)
        × SameCore memory r.1)
emit_locked_outcome_example =
    emit_locked_outcome "s" memory (operation_cancelled "r1") (omega arith)
