-- ===== src/Daemon/Session/Emit.antt =====
-- Events: `emit_locked` of crates/kesharon-daemon/src/session.rs, and the channel that it sends to.
pub mod Sequence
pub mod Frame
use kesharon.Prelude.{
  ℕ, zero, ◌+◌, String, Bool, true, false, not, Option, none, some, List, [], ◌∷◌, ◌++◌, ltb, leb,
  if◌then◌else◌, length, get_elem?, set, Result, ok, err,
}
use kesharon.Protocol.Event.{StreamMessage, event, DaemonEvent, DaemonEventPayload, new_event}
use kesharon.Daemon.Session.State.{
  SessionState, SessionError, sequence_exhausted, Channel, Memory, subscriber_capacity, u64_max,
}

-- `u64::checked_add`
abbrev pub checked_add : ℕ → ℕ → Option ℕ
checked_add a b = if leb (a + b) u64_max then some (a + b) else none

-- `SyncSender::try_send`: `none` stands for `Full` and for `Disconnected`.
unfoldable pub try_send : Channel → StreamMessage → Option Channel
try_send c message =
    if not c.connected
    then none
    else if ltb (length c.queue) subscriber_capacity
    then some (record c { queue = c.queue ++ message ∷ [] })
    else none

-- The memory after a send to the channel at an address: a subscriber that cannot take the message
-- is dropped. A sender's channel exists, so the address is never out of range.
abbrev pub sent : Memory → ℕ → Option Channel → Memory
sent m a none = record m { state = record m.state { subscriber = none } }
sent m a (some c) = record m { channels = set m.channels a c }

unfoldable pub send_to : Memory → ℕ → StreamMessage → Memory
unfolding try_send
send_to m a message = elim (get_elem? m.channels a) [
  | none ↦ sent m a none
  | some c ↦ sent m a (try_send c message)
]

unfoldable pub deliver : Memory → StreamMessage → Memory
unfolding send_to
deliver m message = elim m.subscriber [ none ↦ m | some a ↦ send_to m a message ]

module _ (stream_id : String) where
  unfoldable pub emit_at : Memory → ℕ → DaemonEventPayload → Result (Unit {0}) SessionError × Memory
  unfolding deliver
  emit_at m sequence payload =
      let m' = record m { state = record m.state { sequence = sequence } } in
      elim (new_event stream_id sequence payload) [
        | err e ↦ (err sequence_exhausted, m')
        | ok e ↦ (ok tt, deliver m' (event e))
      ]

  unfoldable pub emit_locked : Memory → DaemonEventPayload → Result (Unit {0}) SessionError × Memory
  unfolding emit_at
  emit_locked m payload = elim (checked_add m.sequence 1) [
    | none ↦ (err sequence_exhausted, m)
    | some sequence ↦ emit_at m sequence payload
  ]
