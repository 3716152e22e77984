-- ===== src/Host/Loop/Delays.antt =====
-- The delays between the attempts to connect.
use kesharon.Prelude.{ℕ, suc, ◌*◌, ◌^◌, ◌≡◌, ◌⊎◌, false, List, [], ◌∷◌, ltb, if◌then◌else◌}
use kesharon.Host.{Following, reconnecting}
use kesharon.Host.Loop.{
  Effect, sends, sleeps, OuterTurn, without_client, attempt_fails, connects, Turn, step, Standing,
  at_inner, spawned_task,
}

-- A round that finds no client, or no subscription, while nobody cancels.
abbrev IsFailing : OuterTurn → Type 0
IsFailing (without_client set_before set_late) = (set_before ≡ false) × (set_late ≡ false)
IsFailing (attempt_fails set_before set_after set_late) =
    (set_before ≡ false) × (set_after ≡ false) × (set_late ≡ false)
IsFailing (connects set_before set_after s taken) = ⊥

abbrev pub AllFailing : List Turn → Type 0
AllFailing [] = Unit
AllFailing (turn ∷ turns) = IsFailing turn.outer × AllFailing turns

-- 50 ms doubled `n` times, but never more than a second.
abbrev pub delay : ℕ → ℕ
delay n = if ltb 1000 (50 * 2 ^ n) then 1000 else 50 * 2 ^ n

-- The delays of some rounds, from the `n`th on.
abbrev pub delays_from : ℕ → List Turn → List Effect
delays_from n [] = []
delays_from n (turn ∷ turns) = sleeps (delay n) ∷ delays_from (suc n) turns

-- The task has just been spawned, or a round of its inner loop has just sent a `Reconnecting`.
abbrev pub IsFresh : Standing → Type 0
IsFresh s =
    (s ≡ spawned_task)
    ⊎ ((f : Following) × (turn : Turn) × (step (at_inner f) turn ≡ (sends reconnecting ∷ [], s)))
