-- ===== src/DemoSession/Maps.antt =====
-- The JavaScript maps of the demo modules, as lists of entries in the order of insertion.
use cost_engine_orchestratio.Base.{
  suc, String, ◌≡◌, refl, ap, ◌≤◌, Option, none, some, List, [], ◌∷◌, inl, inr, if◌then◌else◌, ◌==◌,
  string_eq, length, Bool-cases, arith,
}
use text.Mathlib.TextEquality.{eq_iff}

module _ {V : Type 0} where
  -- Map.get
  unfoldable pub get_key : String → List (String × V) → Option V
  get_key k [] = none
  get_key k ((j, v) ∷ m) = if j == k then some v else get_key k m

  -- Map.set: a key that is there keeps its place
  unfoldable pub set_key : String → V → List (String × V) → List (String × V)
  set_key k v [] = (k, v) ∷ []
  set_key k v ((j, w) ∷ m) = if j == k then (k, v) ∷ m else (j, w) ∷ set_key k v m

  -- Map.delete: no key occurs twice, so that this deletes the one entry with the key
  unfoldable pub delete_key : String → List (String × V) → List (String × V)
  delete_key k [] = []
  delete_key k ((j, w) ∷ m) = let rest = delete_key k m in if j == k then rest else (j, w) ∷ rest

  pub get_key-set_key :
      (j k : String) (v : V) (m : List (String × V))
      → get_key j (set_key k v m) ≡ (if k == j then some v else get_key j m)
  unfolding get_key set_key
  get_key-set_key j k v [] = refl
  get_key-set_key j k v ((i, w) ∷ m) =
      ground (arith, eq_iff k j, eq_iff i k, eq_iff i j, get_key-set_key j k v m)

  pub get_key-delete_key :
      (j k : String) (m : List (String × V))
      → get_key j (delete_key k m) ≡ (if k == j then none else get_key j m)
  unfolding get_key delete_key
  get_key-delete_key j k [] = elim (Bool-cases (k == j)) [ inl e ↦ rw e refl | inr e ↦ rw e refl ]
  get_key-delete_key j k ((i, w) ∷ m) =
      ground (arith, eq_iff k j, eq_iff i k, eq_iff i j, get_key-delete_key j k m)

  -- A new key adds an entry.
  pub length-set_key :
      (k : String) (v : V) (m : List (String × V))
      → get_key k m ≡ none
      → length (set_key k v m) ≡ suc (length m)
  unfolding get_key set_key
  length-set_key k v [] h = refl
  length-set_key k v ((j, w) ∷ m) h = elim (Bool-cases (j == k)) [
    | inl e ↦ ground arith
    | inr e ↦ rw e (ap suc (length-set_key k v m (ground arith)))
  ]

  -- A key that is there keeps the number of entries.
  pub length-set_known :
      (k : String) (v : V) (m : List (String × V)) {w : V}
      → get_key k m ≡ some w
      → length (set_key k v m) ≡ length m
  unfolding get_key set_key
  length-set_known k v [] h = cc
  length-set_known k v ((j, u) ∷ m) {w} h = elim (Bool-cases (j == k)) [
    | inl e ↦ rw e refl
    | inr e ↦ rw e (ap suc (length-set_known k v m {w = w} (ground arith)))
  ]

  pub length-delete_key : (k : String) (m : List (String × V)) → length (delete_key k m) ≤ length m
  unfolding delete_key
  length-delete_key k [] = omega arith
  length-delete_key k ((j, w) ∷ m) = elim (Bool-cases (j == k)) [
    | inl e ↦ rw e (omega (arith, length-delete_key k m))
    | inr e ↦ rw e (omega (arith, length-delete_key k m))
  ]
