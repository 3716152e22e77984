-- ===== src/Ipc/Whole.antt =====
-- Bytes that all come, in whatever pieces and with whatever waits, are read whole.
use kesharon.Prelude.{
  ℕ, zero, suc, ◌-◌, ◌≡◌, refl, ap, sym, ◌∙◌, String, Bool-cases, inl, inr, true, false, List, [],
  ◌∷◌, ◌++◌, arith, leb, length, length-append, drop, Result, ok, err,
}
use kesharon.Ipc.{
  Answer, arrives, not_ready, interrupted, failed, Call, returned, waiting, prepended, unread,
  read_exact,
}
use kesharon.Ipc.Read.{content, has_end, IsRead, read_exact-IsRead}

-- The answers that a call leaves have no end.
abbrev LeavesNoEnd : Call (Result (List ℕ) String) → Type 0
LeavesNoEnd (returned r rest) = has_end rest ≡ false
LeavesNoEnd waiting = Unit

prepended-LeavesNoEnd :
    (bytes : List ℕ) (r : Call (Result (List ℕ) String))
    → LeavesNoEnd r
    → LeavesNoEnd (prepended bytes r)
prepended-LeavesNoEnd bytes (returned (ok rest) answers) h = h
prepended-LeavesNoEnd bytes (returned (err e) answers) h = h
prepended-LeavesNoEnd bytes waiting h = h

has_end-unread :
    (bytes : List ℕ) (answers : List Answer) → has_end (unread bytes answers) ≡ has_end answers
has_end-unread [] answers = refl
has_end-unread (b ∷ bytes) answers = refl

read_exact-LeavesNoEnd :
    (answers : List Answer) (n : ℕ) → has_end answers ≡ false → LeavesNoEnd (read_exact answers n)
unfolding read_exact
read_exact-LeavesNoEnd [] zero h = refl
read_exact-LeavesNoEnd (a ∷ answers) zero h = h
read_exact-LeavesNoEnd [] (suc n) h = tt
read_exact-LeavesNoEnd (arrives first others ∷ answers) (suc n) h =
    elim (Bool-cases (leb (length others) n)) [
      | inl e ↦ rw e (
          prepended-LeavesNoEnd (first ∷ others) _
            (read_exact-LeavesNoEnd answers (n - length others) h))
      | inr e ↦ rw e (has_end-unread (drop n others) answers ∙ h)
    ]
read_exact-LeavesNoEnd (not_ready true ∷ answers) (suc n) h = ground (arith, h)
read_exact-LeavesNoEnd (not_ready false ∷ answers) (suc n) h =
    read_exact-LeavesNoEnd answers (suc n) h
read_exact-LeavesNoEnd (interrupted ∷ answers) (suc n) h = read_exact-LeavesNoEnd answers (suc n) h
read_exact-LeavesNoEnd (failed message ∷ answers) (suc n) h = ground (arith, h)

-- Two splits of a list at the same place.
same_split :
    (xs xs' ys ys' : List ℕ)
    → xs ++ ys ≡ xs' ++ ys'
    → length xs ≡ length xs'
    → (xs ≡ xs') × (ys ≡ ys')
same_split [] [] ys ys' h l = (refl, h)
same_split [] (x ∷ xs') ys ys' h l = ground (arith, l)
same_split (x ∷ xs) [] ys ys' h l = ground (arith, l)
same_split (x ∷ xs) (x' ∷ xs') ys ys' h l =
    let (p, q) = same_split xs xs' ys ys' (cc h) (omega (arith, l)) in (cc (h, p), q)

whole :
    (answers : List Answer) (xs ys : List ℕ) (r : Call (Result (List ℕ) String))
    → content answers ≡ xs ++ ys
    → has_end answers ≡ false
    → IsRead answers (length xs) r
    → LeavesNoEnd r
    → (rest : List Answer) × (r ≡ returned (ok xs) rest)
      × (content rest ≡ ys)
      × (has_end rest ≡ false)
whole answers xs ys (returned (ok bytes) rest) c e (l, h) k =
    let (p, q) = same_split bytes xs (content rest) ys (sym h ∙ c) l in
    (rest, ap (λ b. returned (ok b) rest) p, q, k)
whole answers xs ys (returned (err m) rest) c e h k = ground (arith, e, h)
whole answers xs ys waiting c e (l, h) k =
    absurd (ground (arith, l, ap length c, length-append xs ys))

pub read_exact-content :
    (answers : List Answer) (xs ys : List ℕ)
    → content answers ≡ xs ++ ys
    → has_end answers ≡ false
    → (rest : List Answer) × (read_exact answers (length xs) ≡ returned (ok xs) rest)
      × (content rest ≡ ys)
      × (has_end rest ≡ false)
read_exact-content answers xs ys c e =
    whole answers xs ys _ c e (read_exact-IsRead answers (length xs))
      (read_exact-LeavesNoEnd answers (length xs) e)
