-- ===== src/Daemon/Runtime/Accepting/Leaves.antt =====
-- The threads that end, and the permits, of the accept loop.
use kesharon.Prelude.{
  ℕ, zero, suc, ◌≡◌, ◌<◌, ◌≤◌, inl, inr, refl, ap, Bool-cases, none, some, List, [], ◌∷◌, ◌++◌,
  arith, ltb, length,
}
use kesharon.Daemon.Runtime.{Runtime, RuntimeReach, max_active_connections, acquire, ends, next}
use kesharon.Daemon.Runtime.Accepting.{remove_at, leave, leave_all}

-- The parts of a list around a position.
remove_at-parts :
    (i : ℕ) (xs : List ℕ)
    → i < length xs
    → (before after : List ℕ) × (x : ℕ) × (xs ≡ before ++ x ∷ after)
      × (remove_at i xs ≡ before ++ after)
unfolding remove_at
remove_at-parts i [] h = absurd (omega arith)
remove_at-parts zero (x ∷ xs) h = ([], xs, x, refl, refl)
remove_at-parts (suc i) (x ∷ xs) h =
    let (before, after, y, parts, removed) = remove_at-parts i xs (omega arith) in
    (x ∷ before, after, y, ap (λ ys. x ∷ ys) parts, ap (λ ys. x ∷ ys) removed)

leave-Reach : (x y : Runtime) (i : ℕ) → RuntimeReach x y → RuntimeReach x (leave y i)
unfolding leave
leave-Reach x y i r = elim (Bool-cases (ltb i (length y.served))) [
  | inr e ↦ rw e r
  | inl e ↦
      let (before, after, k, parts, removed) = remove_at-parts i y.served (ground arith) in
      rw (e, removed) (next r (ends before after k parts refl))
]

pub leave_all-Reach :
    (x y : Runtime) (is : List ℕ) → RuntimeReach x y → RuntimeReach x (leave_all y is)
unfolding leave_all
leave_all-Reach x y [] r = r
leave_all-Reach x y (i ∷ is) r = leave_all-Reach x (leave y i) is (leave-Reach x y i r)

pub acquire_room : (n : ℕ) {a : ℕ} → acquire n ≡ some a → n < max_active_connections
unfolding acquire
acquire_room n e = ground (arith, e)

pub acquire_full : (n : ℕ) → acquire n ≡ none → max_active_connections ≤ n
unfolding acquire
acquire_full n e = ground (arith, e)
