-- ===== src/Host/Backoff.antt =====
-- The delays between the attempts to connect, and the restarts of the daemon.
use kesharon.Prelude.{
  ℕ, zero, suc, ◌*◌, ◌^◌, ◌≡◌, refl, ap, ◌∙◌, true, false, List, [], ◌∷◌, arith, ltb, if◌then◌else◌,
}
use kesharon.Host.{
  initial_backoff, max_backoff, next_backoff, ExitDecision, restart, mark_recoverable,
  RestartBudget, record_unexpected_exit,
}

-- The delay after some failed attempts.
abbrev pub backoff_after : ℕ → ℕ
backoff_after zero = initial_backoff
backoff_after (suc n) = next_backoff (backoff_after n)

-- 50 ms doubled `n` times, but never more than a second.
abbrev pub capped : ℕ → ℕ
capped n =
    if ltb max_backoff (initial_backoff * 2 ^ n) then max_backoff else initial_backoff * 2 ^ n

doubled :
    (x : ℕ)
    → next_backoff (if ltb max_backoff x then max_backoff else x)
      ≡ (if ltb max_backoff (x * 2) then max_backoff else x * 2)
unfolding next_backoff
doubled x = ground arith

pub next_backoff-capped : (n : ℕ) → next_backoff (capped n) ≡ capped (suc n)
next_backoff-capped n =
    let power : initial_backoff * 2 ^ n * 2 ≡ initial_backoff * 2 ^ suc n = omega arith in
    doubled (initial_backoff * 2 ^ n) ∙ ap (λ k. if ltb max_backoff k then max_backoff else k) power

-- The delay after `n` failed attempts is 50 ms doubled `n` times, but never more than a second.
pub next_backoff_lem : (n : ℕ) → backoff_after n ≡ capped n
next_backoff_lem zero = refl
next_backoff_lem (suc n) = ap next_backoff (next_backoff_lem n) ∙ next_backoff-capped n

-- The decisions at some exits, one after the other.
abbrev pub decisions : RestartBudget → ℕ → List ExitDecision
decisions budget zero = []
decisions budget (suc n) =
    let (decision, rest) = record_unexpected_exit budget in decision ∷ decisions rest n

abbrev pub all_recoverable : ℕ → List ExitDecision
all_recoverable zero = []
all_recoverable (suc n) = mark_recoverable ∷ all_recoverable n

used : (n : ℕ) → decisions (record { restart_used = true }) n ≡ all_recoverable n
unfolding record_unexpected_exit
used zero = refl
used (suc n) = ap (λ ds. mark_recoverable ∷ ds) (used n)

-- A daemon that exits unexpectedly is restarted the first time, and never again.
pub record_unexpected_exit_lem :
    (n : ℕ) → decisions (record { restart_used = false }) (suc n) ≡ restart ∷ all_recoverable n
unfolding record_unexpected_exit
record_unexpected_exit_lem n = ap (λ ds. restart ∷ ds) (used n)
