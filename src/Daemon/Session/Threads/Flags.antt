-- ===== src/Daemon/Session/Threads/Flags.antt =====
-- Cancellation flags: one that is set stays set.
use kesharon.Prelude.{
  ℕ, zero, suc, ◌≡◌, refl, Bool, true, false, none, some, List, [], ◌∷◌, ◌++◌, get_elem?, set,
}
use kesharon.Daemon.Session.State.{Memory}
use kesharon.Daemon.Session.Open.{is_set}

-- The flag at an address of a list, unset where there is none.
abbrev pub flag_at : List Bool → ℕ → Bool
flag_at flags a = elim (get_elem? flags a) [ none ↦ false | some flag ↦ flag ]

pub is_set_lem : (m : Memory) (a : ℕ) → is_set m a ≡ flag_at m.flags a
unfolding is_set
is_set_lem m a = refl

-- Every flag that is set in the first list is set in the second.
abbrev pub StaySet : List Bool → List Bool → Type 0
StaySet xs ys = (a : ℕ) → flag_at xs a ≡ true → flag_at ys a ≡ true

pub StaySet-append : (xs : List Bool) (b : Bool) → StaySet xs (xs ++ b ∷ [])
StaySet-append [] b a h = cc
StaySet-append (x ∷ xs) b zero h = h
StaySet-append (x ∷ xs) b (suc a) h = StaySet-append xs b a h

pub StaySet-set : (xs : List Bool) (i : ℕ) → StaySet xs (set xs i true)
StaySet-set [] i a h = h
StaySet-set (x ∷ xs) zero zero h = refl
StaySet-set (x ∷ xs) zero (suc a) h = h
StaySet-set (x ∷ xs) (suc i) zero h = h
StaySet-set (x ∷ xs) (suc i) (suc a) h = StaySet-set xs i a h
