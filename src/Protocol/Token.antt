-- ===== src/Protocol/Token.antt =====
-- `LaunchToken` of crates/kesharon-protocol/src/lib.rs, and its printing by
-- `LaunchConfiguration::generate` of apps/desktop/src-tauri/src/lib.rs. A `&str` is the list of the
-- bytes of its UTF-8. Slicing a `&str` inside a character panics, so the results are optional:
-- `none` is a panic of the thread.
pub mod Bits
pub mod Parse
pub mod Match
pub mod Tests
use Prim.Native.Nat.{bit_or, bit_xor}
use kesharon.Prelude.{
  ℕ, zero, suc, ◌+◌, ◌*◌, ◌-◌, ◌/◌, ◌%◌, ◌≡◌, Bool, true, false, not, ◌&&◌, ◌||◌, Option, none,
  some, List, [], ◌∷◌, ◌++◌, ltb, leb, ◌==◌, if◌then◌else◌, length, get_elem?, Result, ok, err,
}
use kesharon.Protocol.Error.{ProtocolError, invalid_launch_token}

pub record LaunchToken : Type 0 where
  pub bytes : List ℕ

-- `char::to_digit(16)` of an ASCII character.
unfoldable pub to_digit : ℕ → Option ℕ
to_digit c =
    if leb b'0' c && leb c b'9'
    then some (c - b'0')
    else if leb b'a' c && leb c b'f'
    then some (c - b'a' + 10)
    else if leb b'A' c && leb c b'F'
    then some (c - b'A' + 10)
    else none

-- The digit loop of `u8::from_str_radix`; a value past 255 is an error.
unfoldable pub digits : ℕ → List ℕ → Option ℕ
unfolding to_digit
digits value [] = some value
digits value (c ∷ cs) = elim (to_digit c) [
  | none ↦ none
  | some d ↦ if ltb (value * 16 + d) 256 then digits (value * 16 + d) cs else none
]

-- `u8::from_str_radix(text, 16)`: one leading plus sign is skipped, and a sign alone is an error.
unfoldable pub from_str_radix : List ℕ → Option ℕ
unfolding digits
from_str_radix [] = none
from_str_radix (c ∷ []) = if c == b'+' || c == b'-' then none else digits 0 (c ∷ [])
from_str_radix (c ∷ d ∷ cs) = if c == b'+' then digits 0 (d ∷ cs) else digits 0 (c ∷ d ∷ cs)

-- `str::is_char_boundary` inside the text: no continuation byte stands there.
unfoldable pub is_boundary : List ℕ → ℕ → Bool
is_boundary value i = elim (get_elem? value i) [
  | none ↦ i == length value
  | some b ↦ ltb b 128 || leb 192 b
]

-- `&value[offset..offset + 2]`
unfoldable pub pair_at : List ℕ → ℕ → Option (List ℕ)
unfolding is_boundary
pair_at value offset =
    if is_boundary value offset && is_boundary value (offset + 2)
    then elim (get_elem? value offset) [
      | none ↦ none
      | some a ↦ elim (get_elem? value (offset + 1)) [ none ↦ none | some b ↦ some (a ∷ b ∷ []) ]
    ]
    else none

-- One more byte in front of what the rest of the loop gives.
abbrev pub prepend :
    ℕ → Option (Result (List ℕ) ProtocolError) → Option (Result (List ℕ) ProtocolError)
prepend b none = none
prepend b (some (err e)) = some (err e)
prepend b (some (ok bytes)) = some (ok (b ∷ bytes))

-- The loop of `parse_hex` over `rounds` bytes, from byte `index` on.
unfoldable pub parse_bytes : (rounds index : ℕ) → List ℕ → Option (Result (List ℕ) ProtocolError)
parse_bytes zero index value = some (ok [])
parse_bytes (suc rounds) index value = elim (pair_at value (index * 2)) [
  | none ↦ none
  | some text ↦ elim (from_str_radix text) [
    | none ↦ some (err invalid_launch_token)
    | some b ↦ prepend b (parse_bytes rounds (index + 1) value)
  ]
]

abbrev pub token_of :
    Option (Result (List ℕ) ProtocolError) → Option (Result LaunchToken ProtocolError)
token_of none = none
token_of (some (err e)) = some (err e)
token_of (some (ok bytes)) = some (ok (record { bytes = bytes }))

unfoldable pub parse_hex : List ℕ → Option (Result LaunchToken ProtocolError)
parse_hex value =
    if not (length value == 64)
    then some (err invalid_launch_token)
    else token_of (parse_bytes 32 0 value)

-- `fold(0, |difference, (left, right)| difference | (left ^ right))` over the zipped bytes.
unfoldable pub difference : ℕ → List ℕ → List ℕ → ℕ
difference acc [] ys = acc
difference acc (x ∷ xs) [] = acc
difference acc (x ∷ xs) (y ∷ ys) = difference (bit_or acc (bit_xor x y)) xs ys

abbrev pub answer : LaunchToken → Option (Result LaunchToken ProtocolError) → Option Bool
answer t none = none
answer t (some (err e)) = some false
answer t (some (ok candidate)) = some (difference 0 t.bytes candidate.bytes == 0)

unfoldable pub matches_hex : LaunchToken → List ℕ → Option Bool
matches_hex t candidate = answer t (parse_hex candidate)

-- `write!(text, "{byte:02x}")` for each byte, as the desktop host prints a fresh token.
unfoldable pub hex_digit : ℕ → ℕ
hex_digit d = if ltb d 10 then b'0' + d else b'a' + (d - 10)

unfoldable pub to_hex : List ℕ → List ℕ
unfolding hex_digit
to_hex [] = []
to_hex (b ∷ bs) = hex_digit (b / 16) ∷ hex_digit (b % 16) ∷ to_hex bs
