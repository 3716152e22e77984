-- ===== src/Ipc/Write.antt =====
-- A write gives the other side the whole buffer, or a prefix of it and an error.
use kesharon.Prelude.{
  ℕ, zero, suc, ◌+◌, ◌<◌, ◌≡◌, refl, ap, ◌∙◌, String, Bool, ◌||◌, true, false, Option, none, some,
  List, [], ◌∷◌, ◌++◌, arith, length, take, drop, take-drop, Result, ok, err,
}
use kesharon.Ipc.{Taking, takes, not_ready, interrupted, failed, Written, write_all}

-- The number of bytes that are taken in all.
abbrev pub room : List Taking → ℕ
room [] = 0
room (takes more ∷ takings) = suc (more + room takings)
room (_ ∷ takings) = room takings

abbrev pub has_end : List Taking → Bool
has_end [] = false
has_end (failed message ∷ takings) = true
has_end (not_ready late ∷ takings) = late || has_end takings
has_end (_ ∷ takings) = has_end takings

abbrev pub IsPrefix : List ℕ → List ℕ → Type 0
IsPrefix bytes buffer = (rest : List ℕ) × (buffer ≡ bytes ++ rest)

abbrev pub IsOutcome :
    List Taking → (buffer bytes : List ℕ) → Option (Result (Unit {0}) String) → Type 0
IsOutcome takings buffer bytes none =
    IsPrefix bytes buffer × (room takings < length buffer) × (has_end takings ≡ false)
IsOutcome takings buffer bytes (some (ok _)) = bytes ≡ buffer
IsOutcome takings buffer bytes (some (err e)) = IsPrefix bytes buffer × (has_end takings ≡ true)

abbrev pub IsWritten : List Taking → List ℕ → Written → Type 0
IsWritten takings buffer w = IsOutcome takings buffer w.bytes w.outcome

take-drop-append :
    (n : ℕ) (xs bytes rest : List ℕ) → drop n xs ≡ bytes ++ rest → xs ≡ (take n xs ++ bytes) ++ rest
take-drop-append zero xs bytes rest h = h
take-drop-append (suc n) [] bytes rest h = h
take-drop-append (suc n) (x ∷ xs) bytes rest h =
    ap (λ ys. x ∷ ys) (take-drop-append n xs bytes rest h)

room_drop : (n r : ℕ) (xs : List ℕ) → r < length (drop n xs) → n + r < length xs
room_drop zero r xs h = omega (arith, h)
room_drop (suc n) r [] h = ground (arith, h)
room_drop (suc n) r (x ∷ xs) h = omega (arith, room_drop n r xs h)

and_before-IsPrefix :
    (more b : ℕ) (buffer bytes : List ℕ)
    → IsPrefix bytes (drop more buffer)
    → IsPrefix (b ∷ (take more buffer ++ bytes)) (b ∷ buffer)
and_before-IsPrefix more b buffer bytes (rest, h) =
    (rest, ap (λ ys. b ∷ ys) (take-drop-append more buffer bytes rest h))

and_before-IsOutcome :
    (more : ℕ) (takings : List Taking) (b : ℕ) (buffer bytes : List ℕ)
    (o : Option (Result (Unit {0}) String))
    → IsOutcome takings (drop more buffer) bytes o
    → IsOutcome (takes more ∷ takings) (b ∷ buffer) (b ∷ (take more buffer ++ bytes)) o
and_before-IsOutcome more takings b buffer bytes none (p, h, k) = (
  and_before-IsPrefix more b buffer bytes p,
  omega (arith, room_drop more (room takings) buffer h),
  k,
)
and_before-IsOutcome more takings b buffer bytes (some (ok _)) h =
    ap (λ ys. b ∷ ys) (ap (λ ys. take more buffer ++ ys) h ∙ take-drop more buffer)
and_before-IsOutcome more takings b buffer bytes (some (err e)) (p, k) =
    (and_before-IsPrefix more b buffer bytes p, k)

-- `write_all_with_timeout`, however few bytes each call takes: if it succeeds, exactly the buffer has
-- been written; if it fails, a prefix of it, and some call failed or the clock was read past the
-- deadline; and it still waits only while fewer bytes than the buffer has were taken and neither has
-- happened, and a prefix of it has then been written.
pub write_all-IsWritten :
    (takings : List Taking) (buffer : List ℕ) → IsWritten takings buffer (write_all takings buffer)
unfolding write_all
write_all-IsWritten takings [] = refl
write_all-IsWritten [] (b ∷ buffer) = ((b ∷ buffer, refl), omega arith, refl)
write_all-IsWritten (takes more ∷ takings) (b ∷ buffer) =
    and_before-IsOutcome more takings b buffer _ _ (write_all-IsWritten takings (drop more buffer))
write_all-IsWritten (not_ready true ∷ takings) (b ∷ buffer) = ((b ∷ buffer, refl), refl)
write_all-IsWritten (not_ready false ∷ takings) (b ∷ buffer) =
    write_all-IsWritten takings (b ∷ buffer)
write_all-IsWritten (interrupted ∷ takings) (b ∷ buffer) = write_all-IsWritten takings (b ∷ buffer)
write_all-IsWritten (failed message ∷ takings) (b ∷ buffer) = ((b ∷ buffer, refl), refl)
