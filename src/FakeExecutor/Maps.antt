-- ===== src/FakeExecutor/Maps.antt =====
-- The JavaScript maps and sets of executors/fake-executor.ts, as lists in the order of insertion.
use cost_engine_orchestratio.Base.{
  String, Bool, true, false, Option, none, some, List, [], ◌∷◌, ◌++◌, if◌then◌else◌, ◌==◌, nat_eq,
  string_eq, option_eq, any_row,
}
use cost_engine_orchestratio.Store.Status.{
  dataset_status_eq, job_status_eq, attempt_status_eq, definition_status_eq,
}

module _ {V : Type 0} where
  -- Map.get
  unfoldable pub map_get : String → List (String × V) → Option V
  map_get k [] = none
  map_get k ((j, v) ∷ m) = if j == k then some v else map_get k m

  -- Map.set: a key that is there keeps its place
  unfoldable pub map_set : String → V → List (String × V) → List (String × V)
  map_set k v [] = (k, v) ∷ []
  map_set k v ((j, w) ∷ m) = if j == k then (k, v) ∷ m else (j, w) ∷ map_set k v m

  -- Map.delete
  unfoldable pub map_delete : String → List (String × V) → List (String × V)
  map_delete k [] = []
  map_delete k ((j, w) ∷ m) = if j == k then m else (j, w) ∷ map_delete k m

-- Set.has
abbrev pub has_member : String → List String → Bool
has_member k l = any_row (λ j. j == k) l

-- Set.add
abbrev pub add_member : String → List String → List String
add_member k l = if has_member k l then l else l ++ k ∷ []

abbrev pub has_key {ℓ} : {V : Type ℓ} → Option V → Bool
has_key none = false
has_key (some _) = true
