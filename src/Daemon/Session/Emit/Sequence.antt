-- ===== src/Daemon/Session/Emit/Sequence.antt =====
-- The events that a subscriber is sent are numbered without a gap.
use mathlib.Core.Path.{subst}
use kesharon.Prelude.{
  ℕ, suc, ◌+◌, ◌<◌, ◌≤◌, ◌≡◌, refl, ap, String, true, false, Option, none, some, List, [], ◌∷◌,
  ◌++◌, arith, leb, length, length-append, get_elem?, get_elem?-set-some, Bool-cases, ◌==◌, inl,
  inr, ok, err,
}
use kesharon.Protocol.Event.{
  StreamMessage, snapshot, event, DaemonEvent, DaemonEventPayload, new_event,
}
use kesharon.Daemon.Session.State.{
  sequence_exhausted, Channel, Memory, subscriber_capacity, u64_max,
}
use kesharon.Daemon.Session.Emit.{try_send, sent, send_to, deliver, emit_at, emit_locked}

-- The messages are events of one stream, numbered from just behind `first` up to `last`.
abbrev pub Numbered : String → ℕ → ℕ → List StreamMessage → Type 0
Numbered id first last [] = first ≡ last
Numbered id first last (snapshot s ∷ ms) = ⊥
Numbered id first last (event e ∷ ms) =
    (e.protocol_version ≡ 1)
    × (e.stream_id ≡ id)
    × (e.sequence ≡ suc first)
    × Numbered id (suc first) last ms

pub Numbered-append :
    (id : String) (first last : ℕ) (ms : List StreamMessage) (e : DaemonEvent)
    → Numbered id first last ms
    → e.protocol_version ≡ 1
    → e.stream_id ≡ id
    → e.sequence ≡ suc last
    → Numbered id first (suc last) (ms ++ event e ∷ [])
Numbered-append id first last [] e n v i s = (v, i, omega arith, omega arith)
Numbered-append id first last (snapshot w ∷ ms) e n v i s = n
Numbered-append id first last (event d ∷ ms) e n v i s =
    (n.0, n.1, n.2, Numbered-append id (suc first) last ms e n.3 v i s)

-- The channel of a subscriber who has read up to `first` holds the events from there up to the
-- session's sequence number, within the capacity.
pub record IsFed (id : String) (first : ℕ) (m : Memory) (a : ℕ) : Type 0 where
  pub channel : Channel
  pub stands : get_elem? m.channels a ≡ some channel
  pub numbered : Numbered id first m.sequence channel.queue
  pub fits : length channel.queue ≤ subscriber_capacity

-- So for whoever is subscribed.
abbrev FedBy : String → ℕ → Memory → Option ℕ → Type 0
FedBy id first m none = Unit
FedBy id first m (some a) = IsFed id first m a

abbrev pub IsFeeding : String → ℕ → Memory → Type 0
IsFeeding id first m = FedBy id first m m.subscriber

module _ (id : String) (m : Memory) (payload : DaemonEventPayload) where
  -- The event that comes next, and the memory that it is delivered in.
  abbrev pub next_event : DaemonEvent
  next_event = record {
    protocol_version = 1;
    stream_id = id;
    sequence = m.sequence + 1;
    payload = payload;
  }

  abbrev pub counted : Memory
  counted = record m { state = record m.state { sequence = m.sequence + 1 } }

  pub emit_locked_room :
      leb (m.sequence + 1) u64_max ≡ true
      → emit_locked id m payload ≡ (ok tt, deliver counted (event next_event))
  unfolding emit_locked new_event
  emit_locked_room e =
      let positive : (m.sequence + 1 == 0) ≡ false = ground arith in
      rw (e, emit_locked) (rw (positive, emit_at) refl)

  pub emit_locked_full :
      leb (m.sequence + 1) u64_max ≡ false → emit_locked id m payload ≡ (err sequence_exhausted, m)
  unfolding emit_locked
  emit_locked_full e = rw (e, emit_locked) refl

try_send-some :
    (f c : Channel) (message : StreamMessage)
    → try_send f message ≡ some c
    → (c.queue ≡ f.queue ++ message ∷ []) × (length f.queue < subscriber_capacity)
unfolding try_send
try_send-some f c message h = ground arith

module _ (id : String) (first : ℕ) where
  sent-IsFeeding :
      (m : Memory) (a : ℕ) (e : DaemonEvent) (last : ℕ) (f : Channel)
      → m.subscriber ≡ some a
      → get_elem? m.channels a ≡ some f
      → Numbered id first last f.queue
      → (e.protocol_version ≡ 1) × (e.stream_id ≡ id) × (e.sequence ≡ suc last)
      → m.sequence ≡ suc last
      → (r : Option Channel) → try_send f (event e) ≡ r
      → IsFeeding id first (sent m a r)
  sent-IsFeeding m a e last f sub st n made q none t = tt
  sent-IsFeeding m a e last f sub st n made q (some c) t =
      let (queue, room) = try_send-some f c (event e) t in
      rw sub (record {
        channel = c;
        stands = get_elem?-set-some m.channels a c st;
        numbered = rw (q, queue) (Numbered-append id first last f.queue e n made.0 made.1 made.2);
        fits = omega (arith, ap length queue, length-append f.queue (event e ∷ []));
      })

  deliver-IsFeeding :
      (m : Memory) (o : Option ℕ) (e : DaemonEvent) (last : ℕ)
      → m.subscriber ≡ o
      → ((a : ℕ)
          → o ≡ some a
          → IsFed id first (record m { state = record m.state { sequence = last } }) a)
      → (e.protocol_version ≡ 1) × (e.stream_id ≡ id) × (e.sequence ≡ suc last)
      → m.sequence ≡ suc last
      → IsFeeding id first (deliver m (event e))
  unfolding deliver send_to
  deliver-IsFeeding m none e last sub fed made q = rw (sub, deliver) (rw sub tt)
  deliver-IsFeeding m (some a) e last sub fed made q =
      let f = fed a refl in
      rw (sub, deliver)
        (rw (f.stands, send_to)
          (sent-IsFeeding m a e last f.channel sub f.stands f.numbered made q
            (try_send f.channel (event e)) refl))

  -- If the subscriber has, unread, just the events behind `first` up to the session's sequence number,
  -- then so after `emit_locked`, whether it succeeds or fails, unless the subscriber is then dropped.
  pub emit_locked-IsFeeding :
      (m : Memory) (payload : DaemonEventPayload)
      → IsFeeding id first m
      → IsFeeding id first (emit_locked id m payload).1
  emit_locked-IsFeeding m payload h = elim (Bool-cases (leb (m.sequence + 1) u64_max)) [
    | inl e ↦ rw (emit_locked_room id m payload e) (
        deliver-IsFeeding (counted id m payload) m.subscriber (next_event id m payload) m.sequence
          refl (λ a sub. subst (FedBy id first m) sub h) (refl, refl, omega arith) (omega arith))
    | inr e ↦ rw (emit_locked_full id m payload e) h
  ]
