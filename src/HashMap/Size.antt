-- ===== src/HashMap/Size.antt =====
-- The number of entries of a map whose keys are distinct.
use kesharon.Prelude.{
  suc, ◌≡◌, refl, true, false, String, [], ◌∷◌, arith, length, if◌then◌else◌, eq_iff,
}
use kesharon.HashMap.{
  HashMap, contains_key, insert, remove, contains_key-insert, contains_key-remove,
}

module _ {ℓ} {V : Type ℓ} where
  -- No key has two entries.
  abbrev pub IsMap : HashMap V → Type 0
  IsMap [] = Unit
  IsMap ((k, v) ∷ m) = (contains_key m k ≡ false) × IsMap m

  pub insert-IsMap : (m : HashMap V) (k : String) (v : V) → IsMap m → IsMap (insert m k v)
  unfolding insert contains_key
  insert-IsMap [] k v h = (refl, tt)
  insert-IsMap ((j, w) ∷ m) k v h =
      ground (arith, eq_iff j k, eq_iff k j, insert-IsMap m k v h.1, contains_key-insert m k v j)

  pub remove-IsMap : (m : HashMap V) (k : String) → IsMap m → IsMap (remove m k)
  unfolding remove
  remove-IsMap [] k h = tt
  remove-IsMap ((j, w) ∷ m) k h =
      ground (arith, eq_iff j k, eq_iff k j, remove-IsMap m k h.1, contains_key-remove m k j)

  pub length-insert :
      (m : HashMap V) (k : String) (v : V)
      → length (insert m k v) ≡ (if contains_key m k then length m else suc (length m))
  unfolding insert contains_key
  length-insert [] k v = refl
  length-insert ((j, w) ∷ m) k v = ground (arith, length-insert m k v)

  remove_absent : (m : HashMap V) (k : String) → contains_key m k ≡ false → remove m k ≡ m
  unfolding remove contains_key
  remove_absent [] k h = refl
  remove_absent ((j, w) ∷ m) k h = ground (arith, remove_absent m k)

  pub length-remove :
      (m : HashMap V) (k : String)
      → IsMap m
      → contains_key m k ≡ true
      → suc (length (remove m k)) ≡ length m
  unfolding remove contains_key
  length-remove [] k h e = cc
  length-remove ((j, w) ∷ m) k h e =
      ground (arith, eq_iff j k, length-remove m k h.1, remove_absent m k)

  pub remove-insert :
      (m : HashMap V) (k : String) (v : V) → contains_key m k ≡ false → remove (insert m k v) k ≡ m
  unfolding remove insert contains_key
  remove-insert [] k v h = ground (arith, eq_iff k k)
  remove-insert ((j, w) ∷ m) k v h = ground (arith, eq_iff j k, remove-insert m k v)
