-- ===== src/HashMap/Tracks.antt =====
-- A map beside the list of its keys, in the order of their insertion.
use kesharon.Prelude.{
  ◌≡◌, refl, true, false, ◌||◌, String, List, [], ◌∷◌, ◌++◌, arith, length, elem, eq_iff, eq_refl,
  length-append,
}
use kesharon.HashMap.{
  HashMap, contains_key, insert, remove, contains_key-insert, contains_key-remove,
}
use kesharon.HashMap.Size.{IsMap, insert-IsMap, remove-IsMap, length-insert, length-remove}

-- No text occurs twice.
abbrev pub Distinct : List String → Type 0
Distinct [] = Unit
Distinct (k ∷ ks) = (elem k ks ≡ false) × Distinct ks

pub elem-append : (k : String) (xs ys : List String) → elem k (xs ++ ys) ≡ (elem k xs || elem k ys)
elem-append k [] ys = refl
elem-append k (x ∷ xs) ys = ground (arith, elem-append k xs ys)

pub Distinct-append_new :
    (k : String) (ks : List String) → elem k ks ≡ false → Distinct ks → Distinct (ks ++ k ∷ [])
Distinct-append_new k [] n d = (refl, tt)
Distinct-append_new k (j ∷ ks) n d =
    ground (arith, eq_iff j k, eq_iff k j, elem-append j ks (k ∷ []), Distinct-append_new k ks)

-- The list holds exactly the keys of the map, each once.
pub record Tracks {ℓ} {V : Type ℓ} (m : HashMap V) (order : List String) : Type 0 where
  pub same : (k : String) → contains_key m k ≡ elem k order
  pub distinct : Distinct order
  pub is_map : IsMap m
  pub size : length m ≡ length order

module _ {ℓ} {V : Type ℓ} where
  pub Tracks-insert_new :
      (m : HashMap V) (ks : List String) (k : String) (v : V)
      → contains_key m k ≡ false
      → Tracks m ks
      → Tracks (insert m k v) (ks ++ k ∷ [])
  Tracks-insert_new m ks k v n t = record {
    same = λ j. ground (arith, contains_key-insert m k v j, elem-append j ks (k ∷ []), t.same j);
    distinct = Distinct-append_new k ks (ground (arith, t.same k)) t.distinct;
    is_map = insert-IsMap m k v t.is_map;
    size = ground (arith, length-insert m k v, length-append ks (k ∷ []), t.size);
  }

  pub Tracks-insert_old :
      (m : HashMap V) (ks : List String) (k : String) (v : V)
      → contains_key m k ≡ true
      → Tracks m ks
      → Tracks (insert m k v) ks
  Tracks-insert_old m ks k v n t = record {
    same = λ j. ground (arith, contains_key-insert m k v j, eq_iff k j, t.same j);
    distinct = t.distinct;
    is_map = insert-IsMap m k v t.is_map;
    size = ground (arith, length-insert m k v, t.size);
  }

  pub Tracks-remove_head :
      (m : HashMap V) (k : String) (ks : List String) → Tracks m (k ∷ ks) → Tracks (remove m k) ks
  Tracks-remove_head m k ks t = record {
    same = λ j. ground (arith, contains_key-remove m k j, eq_iff k j, t.same j, t.distinct.0);
    distinct = t.distinct.1;
    is_map = remove-IsMap m k t.is_map;
    size = ground (arith, length-remove m k t.is_map, t.same k, eq_refl k, t.size);
  }

pub Distinct-middle :
    (xs : List String) (k : String) (ys : List String)
    → Distinct (xs ++ k ∷ ys)
    → (elem k (xs ++ ys) ≡ false) × Distinct (xs ++ ys)
Distinct-middle [] k ys d = (d.0, d.1)
Distinct-middle (x ∷ xs) k ys d = ground (
  arith,
  eq_iff x k,
  eq_iff k x,
  elem-append x xs (k ∷ ys),
  elem-append x xs ys,
  Distinct-middle xs k ys d.1,
)

module _ {ℓ} {V : Type ℓ} where
  pub Tracks-remove :
      (m : HashMap V) (xs : List String) (k : String) (ys : List String)
      → Tracks m (xs ++ k ∷ ys)
      → Tracks (remove m k) (xs ++ ys)
  Tracks-remove m xs k ys t =
      let (out, distinct) = Distinct-middle xs k ys t.distinct in
      record {
        same = λ j. ground (
          arith,
          contains_key-remove m k j,
          eq_iff k j,
          t.same j,
          elem-append j xs ys,
          elem-append j xs (k ∷ ys),
          out,
        );
        distinct = distinct;
        is_map = remove-IsMap m k t.is_map;
        size = ground (
          arith,
          length-remove m k t.is_map,
          t.same k,
          eq_refl k,
          elem-append k xs (k ∷ ys),
          t.size,
          length-append xs ys,
          length-append xs (k ∷ ys),
        );
      }
