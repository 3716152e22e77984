-- ===== src/Daemon/Session/Emit/Frame.antt =====
-- What `emit_locked` leaves alone, and when it fails.
use kesharon.Prelude.{
  ◌+◌, ◌<◌, ◌≤◌, ◌≡◌, refl, String, arith, leb, Bool-cases, inl, inr, ok, err, ◌⊎◌,
}
use kesharon.Protocol.Event.{StreamMessage, event, DaemonEventPayload}
use kesharon.Daemon.Session.State.{sequence_exhausted, Memory, u64_max}
use kesharon.Daemon.Session.Emit.{send_to, deliver, emit_locked}
use kesharon.Daemon.Session.Emit.Sequence.{emit_locked_room, emit_locked_full, counted, next_event}

-- Two memories that differ in the sequence number, the subscriber and the channels only.
pub record SameCore (m m' : Memory) : Type 0 where
  pub project : m'.project ≡ m.project
  pub active_task : m'.active_task ≡ m.active_task
  pub active : m'.active ≡ m.active
  pub in_flight : m'.in_flight ≡ m.in_flight
  pub completed : m'.completed ≡ m.completed
  pub completed_order : m'.completed_order ≡ m.completed_order
  pub completed_requests : m'.completed_requests ≡ m.completed_requests
  pub completed_request_order : m'.completed_request_order ≡ m.completed_request_order
  pub flags : m'.flags ≡ m.flags

deliver-SameCore : (m : Memory) (message : StreamMessage) → SameCore m (deliver m message)
unfolding deliver send_to
deliver-SameCore m message = ground arith

deliver-sequence :
    (m : Memory) (message : StreamMessage) → (deliver m message).sequence ≡ m.sequence
unfolding deliver send_to
deliver-sequence m message = ground arith

module _ (id : String) (m : Memory) (payload : DaemonEventPayload) where
  pub emit_locked-SameCore : SameCore m (emit_locked id m payload).1
  emit_locked-SameCore = elim (Bool-cases (leb (m.sequence + 1) u64_max)) [
    | inl e ↦
        rw (emit_locked_room id m payload e) (moved (deliver-SameCore (counted id m payload) _))
    | inr e ↦ rw (emit_locked_full id m payload e) (record {
      project = refl;
      active_task = refl;
      active = refl;
      in_flight = refl;
      completed = refl;
      completed_order = refl;
      completed_requests = refl;
      completed_request_order = refl;
      flags = refl;
    })
  ]
    where
      moved : {m' : Memory} → SameCore (counted id m payload) m' → SameCore m m'
      moved c = record {
        project = c.project;
        active_task = c.active_task;
        active = c.active;
        in_flight = c.in_flight;
        completed = c.completed;
        completed_order = c.completed_order;
        completed_requests = c.completed_requests;
        completed_request_order = c.completed_request_order;
        flags = c.flags;
      }

  -- `emit_locked` fails exactly if the sequence number is the largest u64, and then changes nothing.
  -- Otherwise the number goes up by one, and nothing but the number, the subscriber and the channels
  -- changes.
  pub emit_locked_outcome :
      m.sequence ≤ u64_max
      → ((m.sequence ≡ u64_max) × (emit_locked id m payload ≡ (err sequence_exhausted, m)))
        ⊎ ((m.sequence < u64_max)
            × ((emit_locked id m payload).0 ≡ ok tt)
            × ((emit_locked id m payload).1.sequence ≡ m.sequence + 1)
            × SameCore m (emit_locked id m payload).1)
  emit_locked_outcome h = elim (Bool-cases (leb (m.sequence + 1) u64_max)) [
    | inl e ↦ inr (
      ground arith,
      ground (arith, emit_locked_room id m payload e),
      ground (
        arith,
        emit_locked_room id m payload e,
        deliver-sequence (counted id m payload) (event (next_event id m payload)),
      ),
      emit_locked-SameCore,
    )
    | inr e ↦ inl (ground arith, emit_locked_full id m payload e)
  ]
