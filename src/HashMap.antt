-- ===== src/HashMap.antt =====
-- `std::collections::HashMap<String, V>`, and `HashSet<String>` as a map to the unit type, as the
-- program uses them. The order of the entries is that of their first insertion; no theorem rests on it.
pub mod Size
pub mod Tracks
use kesharon.Prelude.{
  ℕ, ◌+◌, ◌≡◌, refl, Bool, true, false, String, Option, none, some, List, [], ◌∷◌, arith, elem,
  length, if◌then◌else◌, str_eq, eq_iff,
}

abbrev pub HashMap {ℓ} : Type ℓ → Type ℓ
HashMap V = List (String × V)

abbrev pub HashSet : Type 0
HashSet = HashMap (Unit {0})

module _ {ℓ} {V : Type ℓ} where
  abbrev pub empty : HashMap V
  empty = []

  unfoldable pub get : HashMap V → String → Option V
  get [] k = none
  get ((j, v) ∷ m) k = if str_eq j k then some v else get m k

  unfoldable pub contains_key : HashMap V → String → Bool
  contains_key [] k = false
  contains_key ((j, v) ∷ m) k = if str_eq j k then true else contains_key m k

  unfoldable pub insert : HashMap V → String → V → HashMap V
  insert [] k v = (k, v) ∷ []
  insert ((j, w) ∷ m) k v = if str_eq j k then (k, v) ∷ m else (j, w) ∷ insert m k v

  unfoldable pub remove : HashMap V → String → HashMap V
  remove [] k = []
  remove ((j, w) ∷ m) k = let rest = remove m k in if str_eq j k then rest else (j, w) ∷ rest

  unfoldable pub keys : HashMap V → List String
  keys [] = []
  keys ((j, v) ∷ m) = j ∷ keys m

  pub get-empty : (k : String) → get empty k ≡ none
  unfolding get
  get-empty k = refl

  pub get-insert :
      (m : HashMap V) (k : String) (v : V) (j : String)
      → get (insert m k v) j ≡ (if str_eq k j then some v else get m j)
  unfolding get insert
  get-insert [] k v j = refl
  get-insert ((i, w) ∷ m) k v j =
      ground (arith, eq_iff k j, eq_iff i k, eq_iff i j, get-insert m k v j)

  pub get-remove :
      (m : HashMap V) (k j : String) → get (remove m k) j ≡ (if str_eq k j then none else get m j)
  unfolding get remove
  get-remove [] k j = ground arith
  get-remove ((i, w) ∷ m) k j = ground (arith, eq_iff k j, eq_iff i k, eq_iff i j, get-remove m k j)

  pub contains_key-get :
      (m : HashMap V) (k : String)
      → contains_key m k ≡ elim (get m k) [ none ↦ false | some v ↦ true ]
  unfolding get contains_key
  contains_key-get [] k = refl
  contains_key-get ((i, w) ∷ m) k = ground (arith, contains_key-get m k)

  pub contains_key-insert :
      (m : HashMap V) (k : String) (v : V) (j : String)
      → contains_key (insert m k v) j ≡ (if str_eq k j then true else contains_key m j)
  contains_key-insert m k v j =
      ground (arith, contains_key-get (insert m k v) j, contains_key-get m j, get-insert m k v j)

  pub contains_key-remove :
      (m : HashMap V) (k j : String)
      → contains_key (remove m k) j ≡ (if str_eq k j then false else contains_key m j)
  contains_key-remove m k j =
      ground (arith, contains_key-get (remove m k) j, contains_key-get m j, get-remove m k j)

  -- `keys` lists exactly the keys that are there.
  pub elem-keys : (m : HashMap V) (k : String) → elem k (keys m) ≡ contains_key m k
  unfolding keys contains_key
  elem-keys [] k = refl
  elem-keys ((i, w) ∷ m) k = ground (arith, elem-keys m k)

pub ruleset map_laws = (get-empty, get-insert, get-remove, contains_key-insert, contains_key-remove)
