-- ===== src/Prelude/Decimal.antt =====
-- The decimal digits of a number, as `{}` prints it.
use Prim.Native.Nat.{ℕ, zero, suc, ◌/◌, ◌%◌, ◌≤◌, ◌<◌}
use Prim.Native.String.{String, ◌++◌}
use mathlib.Core.Path.{◌≡◌, refl, ap}
use mathlib.Core.Logic.{inl, inr}
use mathlib.Core.List.{List, [], ◌∷◌}
use mathlib.Core.Option.{none, some}
use native.Mathlib.Omega.{arith}
use kesharon.Prelude.Tests.{ltb, if◌then◌else◌, Bool-cases}
use kesharon.Prelude.Lists.{get_elem?}

abbrev digit_texts : List String
digit_texts = "0" ∷ "1" ∷ "2" ∷ "3" ∷ "4" ∷ "5" ∷ "6" ∷ "7" ∷ "8" ∷ "9" ∷ []

abbrev digit_text : ℕ → String
digit_text d = elim (get_elem? digit_texts d) [ none ↦ "" | some text ↦ text ]

-- On fuel, which a number above the number itself is.
unfoldable pub decimal_from : ℕ → ℕ → String
decimal_from zero n = ""
decimal_from (suc fuel) n =
    let rest = decimal_from fuel (n / 10) in
    if ltb n 10 then digit_text n else rest ++ digit_text (n % 10)

unfoldable pub decimal : ℕ → String
unfolding decimal_from
decimal n = decimal_from (suc n) n

same_digits : (k l n : ℕ) → n < k → n < l → decimal_from k n ≡ decimal_from l n
unfolding decimal_from
same_digits zero l n h i = absurd (omega (arith, h))
same_digits (suc k) zero n h i = absurd (omega (arith, i))
same_digits (suc k) (suc l) n h i = elim (Bool-cases (ltb n 10)) [
  | inl e ↦ rw e refl
  | inr e ↦
      let large : 10 ≤ n = ground (arith, e) in
      rw e (
        ap (λ rest. rest ++ digit_text (n % 10))
          (same_digits k l (n / 10) (omega (arith, large, h)) (omega (arith, large, i))))
]

-- More fuel gives the same digits.
pub decimal_from-decimal : (fuel n : ℕ) → n < fuel → decimal_from fuel n ≡ decimal n
unfolding decimal
decimal_from-decimal fuel n h = same_digits fuel (suc n) n h (omega arith)
