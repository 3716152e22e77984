-- ===== src/Daemon/Session/Cancel/Subscribe.antt =====
-- Where the snapshot of a subscription ends, its events begin.
use kesharon.Prelude.{
  ℕ, true, ◌≡◌, refl, arith, String, List, [], ◌∷◌, map, elem, get_elem?-append_last,
}
use kesharon.HashMap.{contains_key, keys, elem-keys}
use kesharon.Protocol.Event.{OperationSnapshot, DaemonEventPayload}
use kesharon.Daemon.Session.State.{SessionState, Memory}
use kesharon.Daemon.Session.Emit.{emit_locked}
use kesharon.Daemon.Session.Emit.Sequence.{IsFeeding, emit_locked-IsFeeding}
use kesharon.Daemon.Session.Cancel.{snapshot_locked, subscribe_locked}

-- Some events, one after the other.
abbrev pub emit_all : String → Memory → List DaemonEventPayload → Memory
emit_all id m [] = m
emit_all id m (payload ∷ payloads) = emit_all id (emit_locked id m payload).1 payloads

emit_all-IsFeeding :
    (id : String) (first : ℕ) (m : Memory) (payloads : List DaemonEventPayload)
    → IsFeeding id first m
    → IsFeeding id first (emit_all id m payloads)
emit_all-IsFeeding id first m [] h = h
emit_all-IsFeeding id first m (payload ∷ payloads) h =
    emit_all-IsFeeding id first (emit_locked id m payload).1 payloads
      (emit_locked-IsFeeding id first m payload h)

listed :
    (ks : List String) (f : String → OperationSnapshot)
    → ((k : String) → (f k).request_id ≡ k)
    → map (λ (o : OperationSnapshot). o.request_id) (map f ks) ≡ ks
listed [] f h = refl
listed (k ∷ ks) f h = rw (h k, listed ks f h) refl

snapshot_ids :
    (id : String) (s : SessionState)
    → map (λ (o : OperationSnapshot). o.request_id) (snapshot_locked id s).active_operations
      ≡ keys s.active
unfolding snapshot_locked
snapshot_ids id s = listed (keys s.active) _ (λ k. refl)

subscribed :
    (id : String) (m : Memory)
    → IsFeeding id (subscribe_locked id m).0.last_sequence (subscribe_locked id m).1
unfolding subscribe_locked snapshot_locked
subscribed id m = record {
  channel = record { queue = []; connected = true };
  stands = get_elem?-append_last m.channels _;
  numbered = refl;
  fits = omega arith;
}

-- The snapshot that a subscription starts with lists exactly the running operations, and whatever
-- events follow, the new channel holds those behind the snapshot's last sequence number, without a gap
-- and 64 at most, or the subscriber is dropped.
pub subscribe_locked-IsFeeding :
    (id : String) (m : Memory) (payloads : List DaemonEventPayload)
    → let (snapshot, m') = subscribe_locked id m in
      ((k : String)
        → elem k (map (λ (o : OperationSnapshot). o.request_id) snapshot.active_operations)
          ≡ contains_key m.active k)
      × IsFeeding id snapshot.last_sequence (emit_all id m' payloads)
unfolding subscribe_locked
subscribe_locked-IsFeeding id m payloads = (
  λ k. rw (snapshot_ids id m.state) (elem-keys m.active k),
  emit_all-IsFeeding id (subscribe_locked id m).0.last_sequence (subscribe_locked id m).1 payloads
      (subscribed id m),
)
