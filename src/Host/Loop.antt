-- ===== src/Host/Loop.antt =====
-- The task of `execute_subscribe_daemon_events`, apps/desktop/src-tauri/src/lib.rs, as a state machine:
-- a step is a round of the outer or of the inner loop, and a turn is what the round meets. A flag
-- beside a reading of the cancellation flag says whether another subscription has set it just before.
pub mod Orderly
pub mod Cancelled
pub mod Delays
pub mod Tests
use kesharon.Prelude.{
  ℕ, ◌+◌, String, Bool, true, false, not, ◌&&◌, ◌||◌, Option, none, some, List, [], ◌∷◌, ◌++◌,
  if◌then◌else◌,
}
use kesharon.Protocol.Event.{StreamMessage, snapshot}
use kesharon.Host.{
  initial_backoff, next_backoff, DaemonStreamUpdate, message, reconnecting, Following, following,
  accept_message,
}
use kesharon.Host.Subscribe.{DaemonSubscription}

-- What the task does that can be seen from outside.
pub data Effect : Type 0 where
  sends : DaemonStreamUpdate → Effect
  sleeps : (milliseconds : ℕ) → Effect

-- The variables of the outer loop.
pub record Locals : Type 0 where
  pub backoff : ℕ
  pub has_connected_once : Bool
  pub is_reconnecting : Bool

abbrev pub new_locals : Locals
new_locals = record {
  backoff = initial_backoff;
  has_connected_once = false;
  is_reconnecting = false;
}

-- What a read came to: a message, which the view takes or not; no message within 150 ms, and whether the
-- daemon then answered `health`; or any other failure.
pub data ReadResult : Type 0 where
  read : StreamMessage → (taken : Bool) → ReadResult
  timed_out : (is_healthy : Bool) → ReadResult
  read_failed : ReadResult

-- A round of the inner loop: its two readings of the flag, and the read between them.
pub record InnerTurn : Type 0 where
  pub set_before : Bool
  pub result : ReadResult
  pub set_after : Bool

-- A round of the outer loop, up to the inner one. There is no client; or no subscription; or there is
-- one, whose snapshot the view takes or not.
pub data OuterTurn : Type 0 where
  without_client : (set_before set_late : Bool) → OuterTurn
  attempt_fails : (set_before set_after set_late : Bool) → OuterTurn
  connects : (set_before set_after : Bool) → DaemonSubscription → (taken : Bool) → OuterTurn

-- What a round of either loop would meet; the round takes the part that is for its loop.
pub record Turn : Type 0 where
  pub outer : OuterTurn
  pub inner : InnerTurn

-- Where the task stands: at the head of the outer loop, or of the inner one, with the cancellation flag
-- as it was last read; or it has returned.
pub data Standing : Type 0 where
  at_outer : (cancelled : Bool) → Locals → Standing
  at_inner : Following → Standing
  over : Standing

-- The variables after the inner loop.
abbrev pub after_connection : (is_reconnecting : Bool) → Locals
after_connection is_reconnecting = record {
  backoff = initial_backoff;
  has_connected_once = true;
  is_reconnecting = is_reconnecting;
}

-- `break` out of the inner loop, with a `Reconnecting`.
abbrev pub reconnects : List Effect × Standing
reconnects = (sends reconnecting ∷ [], at_outer false (after_connection true))

-- `match read_res`
unfoldable pub handle_read : Following → ReadResult → List Effect × Standing
handle_read f (read m taken) = elim (accept_message f m) [
  | none ↦ reconnects
  | some f' ↦ (sends (message m) ∷ [], if taken then at_inner f' else over)
]
handle_read f (timed_out is_healthy) = if is_healthy then ([], at_inner f) else reconnects
handle_read f read_failed = reconnects

-- A round of the inner loop.
unfoldable pub inner_step : Following → InnerTurn → List Effect × Standing
unfolding handle_read
inner_step f turn =
    if turn.set_before || turn.set_after
    then ([], at_outer true (after_connection false))
    else handle_read f turn.result

-- `if has_connected_once && !is_reconnecting { … }`
abbrev pub notices : Locals → Bool
notices l = l.has_connected_once && not l.is_reconnecting

abbrev pub noticed : Locals → Locals
noticed l = if notices l then record l { is_reconnecting = true } else l

abbrev pub notice : Locals → List Effect
notice l = if notices l then sends reconnecting ∷ [] else []

-- The end of a round without a subscription: `cancelled` is the reading before the sleep.
unfoldable pub retry_later : (cancelled : Bool) → Locals → List Effect × Standing
retry_later cancelled l = if cancelled then (notice l, over) else (
  notice l ++ sleeps l.backoff ∷ [],
  at_outer false (record (noticed l) { backoff = next_backoff l.backoff }),
)

-- A round of the outer loop.
unfoldable pub outer_step : (cancelled : Bool) → Locals → OuterTurn → List Effect × Standing
unfolding retry_later
outer_step cancelled l (without_client set_before set_late) =
    if cancelled || set_before then ([], over) else retry_later set_late l
outer_step cancelled l (attempt_fails set_before set_after set_late) =
    if cancelled || set_before || set_after then ([], over) else retry_later set_late l
outer_step cancelled l (connects set_before set_after s taken) =
    if cancelled || set_before || set_after then ([], over) else (
      sends (message (snapshot s.initial_snapshot)) ∷ [],
      if taken then at_inner (following s.stream_id s.initial_snapshot) else over,
    )

unfoldable pub step : Standing → Turn → List Effect × Standing
unfolding inner_step outer_step
step (at_outer cancelled l) turn = outer_step cancelled l turn.outer
step (at_inner f) turn = inner_step f turn.inner
step over turn = ([], over)

-- The rounds for some turns: all that they do, and where the task then stands.
unfoldable pub run_rounds : Standing → List Turn → List Effect × Standing
unfolding step
run_rounds s [] = ([], s)
run_rounds s (turn ∷ turns) =
    let (effects, s') = step s turn in
    let (rest, end) = run_rounds s' turns in (effects ++ rest, end)

-- The task as it is spawned, with a fresh flag.
abbrev pub spawned_task : Standing
spawned_task = at_outer false new_locals
