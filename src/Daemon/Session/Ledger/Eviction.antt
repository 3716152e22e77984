-- ===== src/Daemon/Session/Ledger/Eviction.antt =====
-- The eviction loop keeps the ledger within its limit and takes the oldest keys only.
use kesharon.Prelude.{
  ◌-◌, ◌≤◌, ◌≡◌, refl, Bool, false, ◌&&◌, String, none, some, List, [], ◌∷◌, ◌++◌, arith, length,
  ltb, if◌then◌else◌, str_eq, eq_iff, length-append, Bool-cases, inl, inr,
}
use kesharon.HashMap.{HashMap, get, contains_key, insert, remove, get-insert, get-remove}
use kesharon.HashMap.Tracks.{Tracks, Tracks-insert_new, Tracks-insert_old, Tracks-remove_head}
use kesharon.Daemon.Session.State.{idempotency_limit}
use kesharon.Daemon.Session.Ledger.{evict, note}

module _ {ℓ} {V : Type ℓ} where
  pub evict-Tracks :
      (m : HashMap V) (ks : List String) → Tracks m ks → Tracks (evict m ks).0 (evict m ks).1
  unfolding evict
  evict-Tracks m [] t = t
  evict-Tracks m (k ∷ ks) t = elim (Bool-cases (ltb idempotency_limit (length (k ∷ ks)))) [
    | inl e ↦ rw e (evict-Tracks (remove m k) ks (Tracks-remove_head m k ks t))
    | inr e ↦ rw e t
  ]

  pub evict-le-limit :
      (m : HashMap V) (ks : List String) → length (evict m ks).1 ≤ idempotency_limit
  unfolding evict
  evict-le-limit m [] = omega arith
  evict-le-limit m (k ∷ ks) = ground (arith, evict-le-limit (remove m k) ks)

  evict_small :
      (m : HashMap V) (ks : List String) → length ks ≤ idempotency_limit → evict m ks ≡ (m, ks)
  unfolding evict
  evict_small m [] h = refl
  evict_small m (k ∷ ks) h = ground arith

  pub note-Tracks :
      (m : HashMap V) (ks : List String) (k : String) (v : V)
      → Tracks m ks
      → Tracks (note m ks k v).0 (note m ks k v).1
  unfolding note
  note-Tracks m ks k v t = elim (Bool-cases (contains_key m k)) [
    | inl e ↦ rw e (Tracks-insert_old m ks k v e t)
    | inr e ↦ rw e (Tracks-insert_new m ks k v e t)
  ]

-- The key that a further entry pushes out of a full ledger: the oldest.
abbrev pub pushed_out : List String → String → Bool
pushed_out [] k = false
pushed_out (j ∷ ks) k = ltb (idempotency_limit - 1) (length (j ∷ ks)) && str_eq j k

module _ {ℓ} {V : Type ℓ} where
  abbrev pub noted : HashMap V → List String → String → V → HashMap V × List String
  noted m ks k v = let (m', ks') = note m ks k v in evict m' ks'

  evict_append :
      (m : HashMap V) (j : String) (ks : List String) (k : String)
      → length (j ∷ ks) ≤ idempotency_limit
      → evict m (j ∷ ks ++ k ∷ []) ≡ (
          if ltb (idempotency_limit - 1) (length (j ∷ ks))
          then (remove m j, ks ++ k ∷ [])
          else (m, j ∷ ks ++ k ∷ []))
  unfolding evict
  evict_append m j ks k h =
      ground (arith, length-append ks (k ∷ []), evict_small (remove m j) (ks ++ k ∷ []))

  -- A new key enters a ledger that is within its limit: it is found, the oldest key is lost if the
  -- ledger was full, and every other key keeps its entry.
  pub get-noted :
      (m : HashMap V) (ks : List String) (k : String) (v : V) (j : String)
      → Tracks m ks
      → length ks ≤ idempotency_limit
      → contains_key m k ≡ false
      → get (noted m ks k v).0 j
        ≡ (if str_eq k j then some v else if pushed_out ks j then none else get m j)
  unfolding note
  get-noted m [] k v j t h n =
      rw n (rw (evict_small (insert m k v) (k ∷ []) (omega arith)) (get-insert m k v j))
  get-noted m (i ∷ ks) k v j t h n = rw n (
      rw (evict_append (insert m k v) i ks k h) (
        ground (
          arith,
          get-insert m k v j,
          get-remove (insert m k v) i j,
          t.same k,
          eq_iff i k,
          eq_iff i j,
          eq_iff k j,
        )))
