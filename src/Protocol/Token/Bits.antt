-- ===== src/Protocol/Token/Bits.antt =====
-- `|` and `^` on bytes, as far as the comparison of tokens needs them.
use Prim.Native.Nat.{bit_or, bit_xor, bit_or-bitwise, bit_xor-bitwise, digits, differ, max}
use kesharon.Prelude.{ℕ, zero, suc, ◌/◌, ◌%◌, ◌≤◌, ◌≡◌, refl, arith}

differ-eq_zero : (x y : ℕ) → differ x y ≡ 0 → x ≡ y
differ-eq_zero zero y h = omega arith
differ-eq_zero (suc x) zero h = h
differ-eq_zero (suc x) (suc y) h = omega (arith, differ-eq_zero x y h)

differ_self : (x : ℕ) → differ x x ≡ 0
differ_self zero = refl
differ_self (suc x) = differ_self x

xor_digits-eq_zero : (n a b : ℕ) → a ≤ n → digits (λ b. b) differ n a b ≡ 0 → a ≡ b
xor_digits-eq_zero zero a b h e = omega arith
xor_digits-eq_zero (suc n) zero b h e = omega arith
xor_digits-eq_zero (suc n) (suc a) b h e = omega (
  arith,
  xor_digits-eq_zero n (suc a / 2) (b / 2) (omega arith) (omega arith),
  differ-eq_zero (suc a % 2) (b % 2) (omega arith),
)

xor_digits_self : (n a : ℕ) → a ≤ n → digits (λ b. b) differ n a a ≡ 0
xor_digits_self zero zero h = refl
xor_digits_self zero (suc a) h = omega arith
xor_digits_self (suc n) zero h = refl
xor_digits_self (suc n) (suc a) h =
    omega (arith, xor_digits_self n (suc a / 2) (omega arith), differ_self (suc a % 2))

or_digits-eq_zero : (n a b : ℕ) → a ≤ n → digits (λ b. b) max n a b ≡ 0 → (a ≡ 0) × (b ≡ 0)
or_digits-eq_zero zero a b h e = omega arith
or_digits-eq_zero (suc n) zero b h e = omega arith
or_digits-eq_zero (suc n) (suc a) b h e =
    omega (arith, or_digits-eq_zero n (suc a / 2) (b / 2) (omega arith) (omega arith))

pub bit_xor-eq_zero : (a b : ℕ) → bit_xor a b ≡ 0 → a ≡ b
bit_xor-eq_zero a b e = xor_digits-eq_zero a a b (omega arith) (omega (arith, bit_xor-bitwise a b))

pub bit_xor_self : (a : ℕ) → bit_xor a a ≡ 0
bit_xor_self a = omega (arith, bit_xor-bitwise a a, xor_digits_self a a (omega arith))

pub bit_or-eq_zero : (a b : ℕ) → bit_or a b ≡ 0 → (a ≡ 0) × (b ≡ 0)
bit_or-eq_zero a b e = or_digits-eq_zero a a b (omega arith) (omega (arith, bit_or-bitwise a b))
