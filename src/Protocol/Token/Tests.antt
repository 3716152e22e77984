-- ===== src/Protocol/Token/Tests.antt =====
-- The theorems on launch tokens at concrete texts.
use kesharon.Prelude.{ℕ, zero, suc, ◌≡◌, refl, ◌↔◌, true, some, List, [], ◌∷◌, ◌++◌, ok}
use kesharon.Protocol.Token.{LaunchToken, from_str_radix, parse_hex, matches_hex, to_hex}
use kesharon.Protocol.Token.Match.{matches_hex_iff}

abbrev pub repeat : ℕ → List ℕ → List ℕ
repeat zero xs = []
repeat (suc n) xs = xs ++ repeat n xs

abbrev secret : List ℕ
secret = repeat 16 (0x0f ∷ 0xa5 ∷ [])

abbrev pub token : LaunchToken
token = record { bytes = secret }

matches_hex_iff_example :
    (matches_hex token (to_hex secret) ≡ some true) ↔ (parse_hex (to_hex secret) ≡ some (ok token))
matches_hex_iff_example = matches_hex_iff token (to_hex secret) refl

-- A plus sign passes for the first digit of a pair.
plus_for_zero : from_str_radix (b'+' ∷ b'f' ∷ []) ≡ some 15
unfolding from_str_radix
plus_for_zero = refl
