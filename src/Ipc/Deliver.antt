-- ===== src/Ipc/Deliver.antt =====
-- A buffer that enough calls take is written whole, however few bytes each call takes.
use kesharon.Prelude.{
  ℕ, zero, suc, ◌+◌, ◌≤◌, ◌≡◌, refl, ap, ◌∙◌, true, false, some, List, [], ◌∷◌, arith, length, take,
  drop, take-drop, ok,
}
use kesharon.Ipc.{Taking, takes, not_ready, interrupted, failed, Written, and_before, write_all}
use kesharon.Ipc.Write.{has_end}

-- The number of calls that take something.
abbrev pub calls : List Taking → ℕ
calls [] = 0
calls (takes more ∷ takings) = suc (calls takings)
calls (_ ∷ takings) = calls takings

-- A write that is over, with calls that are enough for `left` further bytes.
abbrev pub IsWhole : List ℕ → (left : ℕ) → Written → Type 0
IsWhole buffer left w =
    (w ≡ record { outcome = some (ok tt); bytes = buffer; rest = w.rest })
    × (left ≤ calls w.rest)
    × (has_end w.rest ≡ false)

drop-length : (n : ℕ) (xs : List ℕ) → length (drop n xs) ≤ length xs
drop-length zero xs = omega arith
drop-length (suc n) [] = omega arith
drop-length (suc n) (x ∷ xs) = omega (arith, drop-length n xs)

and_before-IsWhole :
    (more b left : ℕ) (buffer : List ℕ) (w : Written)
    → IsWhole (drop more buffer) left w
    → IsWhole (b ∷ buffer) left (and_before (b ∷ take more buffer) w)
and_before-IsWhole more b left buffer w (e, c, n) = (
  ap (and_before (b ∷ take more buffer)) e
      ∙ ap (λ bytes. record { outcome = some (ok tt); bytes = b ∷ bytes; rest = w.rest })
          (take-drop more buffer),
  c,
  n,
)

pub write_all-IsWhole :
    (takings : List Taking) (buffer : List ℕ) (left : ℕ)
    → length buffer + left ≤ calls takings
    → has_end takings ≡ false
    → IsWhole buffer left (write_all takings buffer)
unfolding write_all
write_all-IsWhole takings [] left h e = (refl, omega (arith, h), e)
write_all-IsWhole [] (b ∷ buffer) left h e = absurd (omega (arith, h))
write_all-IsWhole (takes more ∷ takings) (b ∷ buffer) left h e =
    and_before-IsWhole more b left buffer _ (
      write_all-IsWhole takings (drop more buffer) left (omega (arith, h, drop-length more buffer))
        e)
write_all-IsWhole (not_ready true ∷ takings) (b ∷ buffer) left h e = ground (arith, e)
write_all-IsWhole (not_ready false ∷ takings) (b ∷ buffer) left h e =
    write_all-IsWhole takings (b ∷ buffer) left h e
write_all-IsWhole (interrupted ∷ takings) (b ∷ buffer) left h e =
    write_all-IsWhole takings (b ∷ buffer) left h e
write_all-IsWhole (failed message ∷ takings) (b ∷ buffer) left h e = ground (arith, e)
