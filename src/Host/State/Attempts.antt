-- ===== src/Host/State/Attempts.antt =====
-- How often the host asks for the health of a daemon.
use mathlib.Core.Path.{subst}
use kesharon.Prelude.{
  String, Bool-cases, sym, ◌==◌, ◌≢◌, inl, inr, ℕ, zero, suc, ◌+◌, ◌*◌, ◌≤◌, ◌<◌, ◌≡◌, refl, ap,
  ◌∙◌, arith, Result, ok, err,
}
use kesharon.Protocol.Response.{ServerResponse}
use kesharon.Host.Error.{HostError}
use kesharon.Host.Client.{DaemonClient}
use kesharon.Host.State.{
  DaemonState, Asked, not_ready_text, ask_health, health_of, current_client, execute_health,
}

-- The answers with some numbers are all errors.
abbrev AllFailed : (ℕ → Result ServerResponse HostError) → (first last : ℕ) → Type 0
AllFailed answer first last = (i : ℕ) → first ≤ i → i < last → (e : HostError) × (answer i ≡ err e)

-- What some rounds come to: the first response that there is, behind some failures; or the error, after
-- a failure in each round. After each failure the thread sleeps 40 ms.
abbrev IsOutcome :
    (ℕ → Result ServerResponse HostError)
    → (rounds first attempts slept : ℕ) → Result ServerResponse String
    → Type 0
IsOutcome answer rounds first attempts slept (ok response) =
    (failures : ℕ) × (failures < rounds)
    × (attempts ≡ suc failures)
    × (slept ≡ 40 * failures)
    × (answer (first + failures) ≡ ok response)
    × AllFailed answer first (first + failures)
IsOutcome answer rounds first attempts slept (err text) =
    (text ≡ not_ready_text)
    × (attempts ≡ rounds)
    × (slept ≡ 40 * rounds)
    × AllFailed answer first (first + rounds)

abbrev pub IsAsked : (ℕ → Result ServerResponse HostError) → (rounds first : ℕ) → Asked → Type 0
IsAsked answer rounds first asked =
    IsOutcome answer rounds first asked.attempts asked.slept asked.result

AllFailed-first :
    (answer : ℕ → Result ServerResponse HostError) (first last : ℕ) (e : HostError)
    → answer first ≡ err e
    → AllFailed answer (suc first) last
    → AllFailed answer first last
AllFailed-first answer first last e h all i l m = elim (Bool-cases (first == i)) [
  | inl k ↦ let same : first ≡ i = ground (arith, k) in (e, ap answer (sym same) ∙ h)
  | inr k ↦
      let other : first ≢ i = λ same. ground (arith, k, same) in all i (omega (arith, l, other)) m
]

asked_once-IsAsked :
    (answer : ℕ → Result ServerResponse HostError) (rounds first : ℕ) (e : HostError)
    (attempts slept : ℕ) (r : Result ServerResponse String)
    → answer first ≡ err e
    → IsOutcome answer rounds (suc first) attempts slept r
    → IsOutcome answer (suc rounds) first (suc attempts) (40 + slept) r
asked_once-IsAsked answer rounds first e attempts slept (ok response) h (n, l, a, s, k, all) = (
  suc n,
  omega (arith, l),
  omega (arith, a),
  omega (arith, s),
  ap answer (omega arith) ∙ k,
  AllFailed-first answer first (first + suc n) e h
      (subst (λ last. AllFailed answer (suc first) last) (omega arith) all),
)
asked_once-IsAsked answer rounds first e attempts slept (err text) h (t, a, s, all) = (
  t,
  omega (arith, a),
  omega (arith, s),
  AllFailed-first answer first (first + suc rounds) e h
      (subst (λ last. AllFailed answer (suc first) last) (omega arith) all),
)

by_answer :
    (answer : ℕ → Result ServerResponse HostError) (rounds first : ℕ)
    (r : Result ServerResponse HostError)
    → answer first ≡ r
    → IsAsked answer rounds (suc first) (ask_health rounds answer (suc first))
    → IsAsked answer (suc rounds) first (ask_health (suc rounds) answer first)
unfolding ask_health
by_answer answer rounds first (ok response) h all =
    rw (h, ask_health)
      (
        0,
        omega arith,
        refl,
        refl,
        ap answer (omega arith) ∙ h,
        λ i l m. absurd (omega (arith, l, m)),
      )
by_answer answer rounds first (err e) h all =
    rw (h, ask_health) (asked_once-IsAsked answer rounds first e _ _ _ h all)

ask_health-IsAsked :
    (answer : ℕ → Result ServerResponse HostError) (rounds first : ℕ)
    → IsAsked answer rounds first (ask_health rounds answer first)
unfolding ask_health
ask_health-IsAsked answer zero first = (refl, refl, refl, λ i l m. absurd (omega (arith, l, m)))
ask_health-IsAsked answer (suc rounds) first =
    by_answer answer rounds first (answer first) refl (ask_health-IsAsked answer rounds (suc first))

-- The outcome by the client that the state has.
abbrev Executed :
    (DaemonClient → ℕ → Result ServerResponse HostError)
    → Result DaemonClient String
    → Asked
    → Type 0
Executed answer (err text) asked = (asked.result ≡ err text) × (asked.attempts ≡ 0)
Executed answer (ok client) asked = IsAsked (answer client) 25 0 asked

abbrev pub IsExecuted :
    DaemonState → (DaemonClient → ℕ → Result ServerResponse HostError) → Asked → Type 0
IsExecuted s answer asked = Executed answer (current_client s) asked

by_client :
    (answer : DaemonClient → ℕ → Result ServerResponse HostError) (c : Result DaemonClient String)
    → Executed answer c (health_of c answer)
by_client answer (err text) = (refl, refl)
by_client answer (ok client) = ask_health-IsAsked (answer client) 25 0

-- `execute_health` always returns: without asking and with the text of the host's error if there is no
-- client; or after at most 25 attempts, with 40 ms of sleep behind each failed one, and then it has the
-- response of the first attempt that does not fail, or the error if all 25 do.
pub execute_health-IsAsked :
    (s : DaemonState) (answer : DaemonClient → ℕ → Result ServerResponse HostError)
    → IsExecuted s answer (execute_health s answer)
unfolding execute_health
execute_health-IsAsked s answer = by_client answer (current_client s)
