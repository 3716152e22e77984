-- ===== src/Ipc/Read.antt =====
-- A read returns what has come, in order and just as much as was asked for.
use mathlib.Core.List.{append_assoc}
use kesharon.Prelude.{
  ℕ, zero, suc, ◌-◌, ◌<◌, ◌≤◌, ◌≡◌, inl, inr, refl, ap, sym, ◌∙◌, String, Bool-cases, ◌||◌, Bool,
  true, false, List, [], ◌∷◌, ◌++◌, arith, leb, length, length-append, take, drop, take-drop,
  length-take, Result, ok, err,
}
use kesharon.Ipc.{
  Answer, arrives, not_ready, interrupted, failed, Call, returned, waiting, prepended, unread,
  read_exact, timed_out,
}

-- All the bytes that come.
abbrev pub content : List Answer → List ℕ
content [] = []
content (arrives first others ∷ answers) = first ∷ (others ++ content answers)
content (_ ∷ answers) = content answers

-- A failure is among the answers, or a reading of the clock past the deadline.
abbrev pub has_end : List Answer → Bool
has_end [] = false
has_end (failed message ∷ answers) = true
has_end (not_ready late ∷ answers) = late || has_end answers
has_end (_ ∷ answers) = has_end answers

-- What a read of `n` bytes comes to: the first `n` bytes, and the others still come; or an error, for
-- a failure or the deadline; or it waits, with too few bytes yet and no end.
abbrev pub IsRead : List Answer → ℕ → Call (Result (List ℕ) String) → Type 0
IsRead answers n (returned (ok bytes) rest) =
    (length bytes ≡ n) × (content answers ≡ bytes ++ content rest)
IsRead answers n (returned (err e) rest) = has_end answers ≡ true
IsRead answers n waiting = (length (content answers) < n) × (has_end answers ≡ false)

pub content-unread :
    (xs : List ℕ) (answers : List Answer) → content (unread xs answers) ≡ xs ++ content answers
content-unread [] answers = refl
content-unread (x ∷ xs) answers = refl

prepended-IsRead :
    (first : ℕ) (others : List ℕ) (answers : List Answer) (n : ℕ)
    (r : Call (Result (List ℕ) String))
    → length others ≤ n
    → IsRead answers (n - length others) r
    → IsRead (arrives first others ∷ answers) (suc n) (prepended (first ∷ others) r)
prepended-IsRead first others answers n (returned (ok bytes) rest) h (l, c) = (
  omega (arith, length-append others bytes),
  ap (λ ys. first ∷ ys)
      (ap (λ ys. others ++ ys) c ∙ sym (append_assoc others bytes (content rest))),
)
prepended-IsRead first others answers n (returned (err e) rest) h k = k
prepended-IsRead first others answers n waiting h (l, k) =
    (omega (arith, length-append others (content answers)), k)

partly-IsRead :
    (first : ℕ) (others : List ℕ) (answers : List Answer) (n : ℕ)
    → n < length others
    → IsRead
        (arrives first others ∷ answers)
        (suc n)
        (returned (ok (first ∷ take n others)) (unread (drop n others) answers))
partly-IsRead first others answers n h = (
  ap suc (length-take n others (omega arith)),
  ap (λ ys. first ∷ ys)
      (ap (λ ys. ys ++ content answers) (sym (take-drop n others))
        ∙ append_assoc (take n others) (drop n others) (content answers)
        ∙ ap (λ ys. take n others ++ ys) (sym (content-unread (drop n others) answers))),
)

-- `read_exact_with_timeout` of `n` bytes, however the bytes come in pieces: if it succeeds, it has
-- given the first `n` that come and the others still come; if it fails, some call failed or the clock
-- was read past the deadline; and it still waits only while fewer than `n` bytes have come and neither
-- has happened.
pub read_exact-IsRead : (answers : List Answer) (n : ℕ) → IsRead answers n (read_exact answers n)
unfolding read_exact
read_exact-IsRead [] zero = (refl, refl)
read_exact-IsRead (a ∷ answers) zero = (refl, refl)
read_exact-IsRead [] (suc n) = (omega arith, refl)
read_exact-IsRead (arrives first others ∷ answers) (suc n) =
    elim (Bool-cases (leb (length others) n)) [
      | inl e ↦ rw e (
          prepended-IsRead first others answers n _ (ground arith)
            (read_exact-IsRead answers (n - length others)))
      | inr e ↦ rw e (partly-IsRead first others answers n (ground arith))
    ]
read_exact-IsRead (not_ready true ∷ answers) (suc n) = refl
read_exact-IsRead (not_ready false ∷ answers) (suc n) = read_exact-IsRead answers (suc n)
read_exact-IsRead (interrupted ∷ answers) (suc n) = read_exact-IsRead answers (suc n)
read_exact-IsRead (failed message ∷ answers) (suc n) = refl

-- A read that runs into its deadline before all its bytes have come, in whatever pieces the others came
-- and with whatever waits and interruptions, returns the error alone: the bytes that came have been
-- taken from the socket, and the next read begins behind them.
pub read_exact_late :
    (answers later : List Answer) (n : ℕ)
    → has_end answers ≡ false
    → length (content answers) < n
    → read_exact (answers ++ not_ready true ∷ later) n ≡ returned (err timed_out) later
unfolding read_exact
read_exact_late answers later zero e h = absurd (omega (arith, h))
read_exact_late [] later (suc n) e h = refl
read_exact_late (arrives first others ∷ answers) later (suc n) e h =
    let all = length-append others (content answers) in
    let fits : leb (length others) n ≡ true = ground (arith, all, h) in
    rw (fits)
      (rw (read_exact_late answers later (n - length others) e (omega (arith, all, h))) refl)
read_exact_late (not_ready true ∷ answers) later (suc n) e h = ground (arith, e)
read_exact_late (not_ready false ∷ answers) later (suc n) e h =
    read_exact_late answers later (suc n) e h
read_exact_late (interrupted ∷ answers) later (suc n) e h =
    read_exact_late answers later (suc n) e h
read_exact_late (failed message ∷ answers) later (suc n) e h = ground (arith, e)
