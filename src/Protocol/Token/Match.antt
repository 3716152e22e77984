-- ===== src/Protocol/Token/Match.antt =====
-- The constant-time comparison of `matches_hex` is equality of the bytes.
use Prim.Native.Nat.{bit_or, bit_xor}
use kesharon.Prelude.{
  ℕ, zero, suc, ◌+◌, ◌*◌, ◌≡◌, refl, sym, ap, ◌∙◌, ◌↔◌, true, Option, none, some, List, [], ◌∷◌,
  arith, ◌==◌, inl, inr, Option-cases, Bool-cases, length, Result, ok, err,
}
use kesharon.Protocol.Error.{ProtocolError}
use kesharon.Protocol.Token.{
  LaunchToken, pair_at, from_str_radix, parse_bytes, prepend, token_of, parse_hex, difference,
  answer, matches_hex,
}
use kesharon.Protocol.Token.Bits.{bit_xor-eq_zero, bit_xor_self, bit_or-eq_zero}

difference-eq_zero :
    (acc : ℕ) (xs ys : List ℕ)
    → length xs ≡ length ys
    → difference acc xs ys ≡ 0
    → (acc ≡ 0) × (xs ≡ ys)
unfolding difference
difference-eq_zero acc [] [] n e = (e, refl)
difference-eq_zero acc [] (y ∷ ys) n e = absurd (omega arith)
difference-eq_zero acc (x ∷ xs) [] n e = absurd (omega arith)
difference-eq_zero acc (x ∷ xs) (y ∷ ys) n e =
    let (z, same) = difference-eq_zero (bit_or acc (bit_xor x y)) xs ys (omega arith) e in
    let (a, b) = bit_or-eq_zero acc (bit_xor x y) z in (a, cc (bit_xor-eq_zero x y b, same))

difference_self : (xs : List ℕ) → difference 0 xs xs ≡ 0
unfolding difference
difference_self [] = refl
difference_self (x ∷ xs) =
    ap (λ d. difference (bit_or 0 d) xs xs) (bit_xor_self x) ∙ difference_self xs

prepend-length :
    (n b : ℕ) (r : Option (Result (List ℕ) ProtocolError)) {bytes : List ℕ}
    → ((rest : List ℕ) → r ≡ some (ok rest) → length rest ≡ n)
    → prepend b r ≡ some (ok bytes)
    → length bytes ≡ suc n
prepend-length n b none h e = cc
prepend-length n b (some (err x)) h e = cc
prepend-length n b (some (ok rest)) h e = ground (arith, h rest refl)

parse_bytes-length :
    (rounds index : ℕ) (value : List ℕ) {bytes : List ℕ}
    → parse_bytes rounds index value ≡ some (ok bytes)
    → length bytes ≡ rounds
unfolding parse_bytes
parse_bytes-length zero index value e = ground arith
parse_bytes-length (suc rounds) index value {bytes} e =
    elim (Option-cases (pair_at value (index * 2))) [
      | inl p ↦ ground arith
      | inr (text, p) ↦ elim (Option-cases (from_str_radix text)) [
        | inl q ↦ ground arith
        | inr (b, q) ↦
            prepend-length rounds b (parse_bytes rounds (index + 1) value)
              (λ rest. parse_bytes-length rounds (index + 1) value {bytes = rest})
              (sym (taken text b p q) ∙ e)
      ]
    ]
  where
    taken :
        (text : List ℕ) (b : ℕ)
        → pair_at value (index * 2) ≡ some text
        → from_str_radix text ≡ some b
        → parse_bytes (suc rounds) index value ≡ prepend b (parse_bytes rounds (index + 1) value)
    taken text b p q = ground (arith, p, q)

token_of-length :
    (r : Option (Result (List ℕ) ProtocolError)) (n : ℕ) {t : LaunchToken}
    → ((bytes : List ℕ) → r ≡ some (ok bytes) → length bytes ≡ n)
    → token_of r ≡ some (ok t)
    → length t.bytes ≡ n
token_of-length none n h e = cc
token_of-length (some (err x)) n h e = cc
token_of-length (some (ok bytes)) n h e = ground (arith, h bytes refl)

parse_hex-length :
    (value : List ℕ) {t : LaunchToken} → parse_hex value ≡ some (ok t) → length t.bytes ≡ 32
unfolding parse_hex
parse_hex-length value {t} e = elim (Bool-cases (length value == 64)) [
  | inl p ↦
      token_of-length (parse_bytes 32 0 value) 32
        (λ bytes. parse_bytes-length 32 0 value {bytes = bytes}) (rw p at e)
  | inr p ↦ cc (rw p at e)
]

answer_iff :
    (t : LaunchToken) (r : Option (Result LaunchToken ProtocolError))
    → ((c : LaunchToken) → r ≡ some (ok c) → length t.bytes ≡ length c.bytes)
    → (answer t r ≡ some true) ↔ (r ≡ some (ok t))
answer_iff t none h = (λ e. cc, λ e. cc)
answer_iff t (some (err x)) h = (λ e. cc, λ e. cc)
answer_iff t (some (ok c)) h = (
  λ e. ground (arith, difference-eq_zero 0 t.bytes c.bytes (h c refl)),
  λ e. ground (arith, difference_self t.bytes),
)

-- The fold over `|` and `^` accepts a text exactly if it parses to the bytes of the token: no other
-- token is accepted.
pub matches_hex_iff :
    (t : LaunchToken) (candidate : List ℕ)
    → length t.bytes ≡ 32
    → (matches_hex t candidate ≡ some true) ↔ (parse_hex candidate ≡ some (ok t))
unfolding matches_hex
matches_hex_iff t candidate n =
    answer_iff t (parse_hex candidate) λ c e. omega (arith, parse_hex-length candidate e)
