-- ===== src/Protocol/Token/Parse.antt =====
-- `parse_hex` on texts that begin with printed bytes: it reads back a printed token, and panics at a
-- character that lies across two pairs.
use mathlib.Core.List.{append_assoc, append-nil}
use kesharon.Prelude.{
  ℕ, zero, suc, ◌+◌, ◌*◌, ◌-◌, ◌/◌, ◌%◌, ◌<◌, ◌≤◌, ◌≡◌, refl, sym, ap, ◌∙◌, true, ◌||◌, Option,
  none, some, List, [], ◌∷◌, ◌++◌, arith, ltb, leb, ◌==◌, length, length-append, get_elem?, Result,
  ok,
}
use kesharon.Protocol.Error.{ProtocolError}
use kesharon.Protocol.Token.{
  from_str_radix, is_boundary, pair_at, prepend, parse_bytes, parse_hex, hex_digit, to_hex,
}

-- Every number of the list is a byte.
abbrev pub AreBytes : List ℕ → Type 0
AreBytes [] = Unit
AreBytes (b ∷ bs) = (b < 256) × AreBytes bs

-- The text is empty or a character begins at its head.
abbrev Begins : List ℕ → Type 0
Begins [] = Unit
Begins (b ∷ bs) = ltb b 128 || leb 192 b ≡ true

get_elem?-append :
    (pre ys : List ℕ) (i j : ℕ) → i ≡ length pre + j → get_elem? (pre ++ ys) i ≡ get_elem? ys j
get_elem?-append [] ys i j e = let e' : i ≡ j = omega arith in ap (get_elem? ys) e'
get_elem?-append (p ∷ pre) ys zero j e = absurd (omega arith)
get_elem?-append (p ∷ pre) ys (suc i) j e = get_elem?-append pre ys i j (omega arith)

hex_digit-lt : (d : ℕ) → d < 16 → hex_digit d < 128
unfolding hex_digit
hex_digit-lt d h = ground arith

from_str_radix-hex_digit :
    (b : ℕ) → b < 256 → from_str_radix (hex_digit (b / 16) ∷ hex_digit (b % 16) ∷ []) ≡ some b
unfolding from_str_radix hex_digit
from_str_radix-hex_digit b h = ground arith

boundary_at :
    (pre ys : List ℕ) (i j : ℕ)
    → i ≡ length pre + j
    → is_boundary (pre ++ ys) i ≡ elim (get_elem? ys j) [
      | none ↦ i == length pre + length ys
      | some b ↦ ltb b 128 || leb 192 b
    ]
unfolding is_boundary
boundary_at pre ys i j e = ground (arith, get_elem?-append pre ys i j, length-append pre ys)

pair_at_append :
    (pre rest : List ℕ) (i a b : ℕ)
    → i ≡ length pre
    → a < 128
    → Begins rest
    → pair_at (pre ++ a ∷ b ∷ rest) i ≡ some (a ∷ b ∷ [])
unfolding pair_at
pair_at_append pre [] i a b e h s = ground (
  arith,
  boundary_at pre (a ∷ b ∷ []) i 0,
  boundary_at pre (a ∷ b ∷ []) (i + 2) 2,
  get_elem?-append pre (a ∷ b ∷ []) i 0,
  get_elem?-append pre (a ∷ b ∷ []) (i + 1) 1,
)
pair_at_append pre (c ∷ rest) i a b e h s = ground (
  arith,
  boundary_at pre (a ∷ b ∷ c ∷ rest) i 0,
  boundary_at pre (a ∷ b ∷ c ∷ rest) (i + 2) 2,
  get_elem?-append pre (a ∷ b ∷ c ∷ rest) i 0,
  get_elem?-append pre (a ∷ b ∷ c ∷ rest) (i + 1) 1,
)

pair_at_straddled :
    (pre rest : List ℕ) (i a b c : ℕ)
    → i ≡ length pre
    → 128 ≤ c
    → c < 192
    → pair_at (pre ++ a ∷ b ∷ c ∷ rest) i ≡ none
unfolding pair_at
pair_at_straddled pre rest i a b c e h h' =
    ground (arith, boundary_at pre (a ∷ b ∷ c ∷ rest) (i + 2) 2)

abbrev prepends :
    List ℕ → Option (Result (List ℕ) ProtocolError) → Option (Result (List ℕ) ProtocolError)
prepends [] r = r
prepends (b ∷ bs) r = prepend b (prepends bs r)

Begins-to_hex : (bs tail : List ℕ) → AreBytes bs → Begins tail → Begins (to_hex bs ++ tail)
unfolding to_hex
Begins-to_hex [] tail h s = s
Begins-to_hex (b ∷ bs) tail h s = ground (arith, hex_digit-lt (b / 16))

pair_at-to_hex :
    (b : ℕ) (bs pre tail value : List ℕ) (i : ℕ)
    → AreBytes (b ∷ bs)
    → Begins tail
    → value ≡ pre ++ (to_hex (b ∷ bs) ++ tail)
    → i ≡ length pre
    → pair_at value i ≡ some (hex_digit (b / 16) ∷ hex_digit (b % 16) ∷ [])
unfolding to_hex
pair_at-to_hex b bs pre tail value i hb ht e h = rw e (
    pair_at_append pre (to_hex bs ++ tail) i _ _ h (hex_digit-lt (b / 16) (omega (arith, hb.0)))
      (Begins-to_hex bs tail hb.1 ht))

shift :
    (b : ℕ) (bs pre tail value : List ℕ)
    → value ≡ pre ++ (to_hex (b ∷ bs) ++ tail)
    → value ≡ (pre ++ hex_digit (b / 16) ∷ hex_digit (b % 16) ∷ []) ++ (to_hex bs ++ tail)
unfolding to_hex
shift b bs pre tail value e = e ∙ sym (append_assoc pre _ (to_hex bs ++ tail))

parse_bytes_step :
    (value : List ℕ) (rounds index : ℕ) {text : List ℕ} {b : ℕ}
    → pair_at value (index * 2) ≡ some text
    → from_str_radix text ≡ some b
    → parse_bytes (suc rounds) index value ≡ prepend b (parse_bytes rounds (index + 1) value)
unfolding parse_bytes
parse_bytes_step value rounds index p q = ground (arith, p, q)

parse_bytes-zero : (index : ℕ) (value : List ℕ) → parse_bytes zero index value ≡ some (ok [])
unfolding parse_bytes
parse_bytes-zero index value = refl

parse_bytes_stop :
    (value : List ℕ) (rounds index : ℕ)
    → pair_at value (index * 2) ≡ none
    → parse_bytes (suc rounds) index value ≡ none
unfolding parse_bytes
parse_bytes_stop value rounds index p = ground (arith, p)

lt→begins : (a : ℕ) → a < 128 → ltb a 128 || leb 192 a ≡ true
lt→begins a h = ground arith

-- The loop reads printed bytes back, wherever they stand in the text.
parse_bytes-to_hex :
    (bs pre tail value : List ℕ) (rounds n index : ℕ)
    → AreBytes bs
    → Begins tail
    → value ≡ pre ++ (to_hex bs ++ tail)
    → index * 2 ≡ length pre
    → rounds ≡ length bs + n
    → parse_bytes rounds index value ≡ prepends bs (parse_bytes n (index + length bs) value)
parse_bytes-to_hex [] pre tail value rounds n index hb ht e i r =
    let r' : rounds ≡ n = omega arith in let i' : index + 0 ≡ index = omega arith in rw (r', i')
parse_bytes-to_hex (b ∷ bs) pre tail value zero n index hb ht e i r = absurd (omega arith)
parse_bytes-to_hex (b ∷ bs) pre tail value (suc rounds) n index hb ht e i r =
    let ih =
      parse_bytes-to_hex bs (pre ++ hex_digit (b / 16) ∷ hex_digit (b % 16) ∷ []) tail value rounds
        n (index + 1) hb.1 ht (shift b bs pre tail value e) (omega (arith, width)) (omega arith) in
    parse_bytes_step value rounds index (pair_at-to_hex b bs pre tail value (index * 2) hb ht e i)
      (from_str_radix-hex_digit b hb.0)
    ∙ ap (prepend b) (ih ∙ ap (λ k. prepends bs (parse_bytes n k value)) (omega arith))
  where
    width : length (pre ++ hex_digit (b / 16) ∷ hex_digit (b % 16) ∷ []) ≡ length pre + 2
    width = length-append pre _

prepends-ok : (bs cs : List ℕ) → prepends bs (some (ok cs)) ≡ some (ok (bs ++ cs))
prepends-ok [] cs = refl
prepends-ok (b ∷ bs) cs = ap (prepend b) (prepends-ok bs cs)

prepends-none : (bs : List ℕ) → prepends bs none ≡ none
prepends-none [] = refl
prepends-none (b ∷ bs) = ap (prepend b) (prepends-none bs)

length-to_hex : (bs : List ℕ) → length (to_hex bs) ≡ length bs * 2
unfolding to_hex
length-to_hex [] = refl
length-to_hex (b ∷ bs) = omega (arith, length-to_hex bs)

-- A token of 32 bytes that `LaunchConfiguration::generate` prints is parsed back to its bytes.
pub parse_hex-to_hex :
    (bs : List ℕ)
    → AreBytes bs
    → length bs ≡ 32
    → parse_hex (to_hex bs) ≡ some (ok (record { bytes = bs }))
unfolding parse_hex
parse_hex-to_hex bs h n = ground (arith, length-to_hex bs, parsed)
  where
    parsed : parse_bytes 32 0 (to_hex bs) ≡ some (ok bs)
    parsed =
        parse_bytes-to_hex bs [] [] (to_hex bs) 32 0 0 h tt (sym (append-nil (to_hex bs))) refl
          (omega arith)
        ∙ ap (prepends bs) (parse_bytes-zero (0 + length bs) (to_hex bs))
        ∙ prepends-ok bs []
        ∙ ap (λ (l : List ℕ). some (ok l)) (append-nil bs)

-- A text of 64 bytes whose first pairs are printed bytes, and which goes on with a character of one
-- byte and then one of several bytes, makes `parse_hex` panic: it returns no error.
pub parse_hex-panics :
    (bs : List ℕ) (a b c : ℕ) (rest : List ℕ)
    → AreBytes bs
    → a < 128
    → 128 ≤ c
    → c < 192
    → length (to_hex bs ++ a ∷ b ∷ c ∷ rest) ≡ 64
    → parse_hex (to_hex bs ++ a ∷ b ∷ c ∷ rest) ≡ none
unfolding parse_hex
parse_hex-panics bs a b c rest h ha hc hc' n = ground (arith, straddled)
  where
    tail : List ℕ
    tail = a ∷ b ∷ c ∷ rest

    size : length (to_hex bs ++ tail) ≡ length bs * 2 + length tail
    size = omega (arith, length-append (to_hex bs) tail, length-to_hex bs)

    stops : parse_bytes (suc (31 - length bs)) (length bs) (to_hex bs ++ tail) ≡ none
    stops =
        parse_bytes_stop (to_hex bs ++ tail) (31 - length bs) (length bs)
          (pair_at_straddled (to_hex bs) rest (length bs * 2) a b c (sym (length-to_hex bs)) hc hc')

    straddled : parse_bytes 32 0 (to_hex bs ++ tail) ≡ none
    straddled =
        parse_bytes-to_hex bs [] tail (to_hex bs ++ tail) 32 (suc (31 - length bs)) 0 h
          (lt→begins a ha) refl refl (omega (arith, size))
        ∙ ap (λ k. prepends bs (parse_bytes (suc (31 - length bs)) k (to_hex bs ++ tail)))
            (omega arith)
        ∙ ap (prepends bs) stops
        ∙ prepends-none bs
