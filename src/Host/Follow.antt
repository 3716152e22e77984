-- ===== src/Host/Follow.antt =====
-- The host takes what the daemon feeds.
use kesharon.Prelude.{ℕ, suc, ◌+◌, ◌≡◌, ap, String, some, List, [], ◌∷◌, map, arith, eq_iff}
use kesharon.Protocol.Event.{StreamMessage, snapshot, event, DaemonEvent}
use kesharon.Daemon.Session.Emit.Sequence.{Numbered}
use kesharon.Host.{message, Following, accept_message, passed_on, follow}

-- Where the host stands when it has read up to a number.
abbrev pub behind : String → ℕ → Following
behind id n = record { current_stream_id = id; expected_sequence = n + 1 }

pub accept_message-event :
    (id : String) (n : ℕ) (e : DaemonEvent)
    → e.stream_id ≡ id
    → e.sequence ≡ suc n
    → accept_message (behind id n) (event e) ≡ some (behind id (suc n))
unfolding accept_message
accept_message-event id n e s q = ground (arith, s, q, eq_iff e.stream_id id)

-- The events that a channel of the daemon holds, numbered without a gap behind the number that the
-- host has read up to, are all passed on to the view, in order and with no reconnection, and the host
-- then expects the event behind them.
pub follow-Numbered :
    (id : String) (first last : ℕ) (ms : List StreamMessage)
    → Numbered id first last ms
    → follow (behind id first) ms ≡ (map message ms, some (behind id last))
unfolding follow
follow-Numbered id first last [] n = ap (λ k. ([], some (behind id k))) n
follow-Numbered id first last (snapshot s ∷ ms) n = absurd n
follow-Numbered id first last (event e ∷ ms) n =
    rw (accept_message-event id first e n.1 n.2, follow)
      (ap (passed_on (event e)) (follow-Numbered id (suc first) last ms n.3))
