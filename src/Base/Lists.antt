-- ===== src/Base/Lists.antt =====
-- Queries and updates on the rows of a table, and lists measured by native numbers.
use Prim.Native.Nat.{ℕ, suc, max}
use mathlib.Core.Bool.{Bool, true, false, ◌||◌, ◌&&◌}
use mathlib.Core.Option.{Option, none, some}
use mathlib.Core.List.{List, [], ◌∷◌}
use cost_engine_orchestratio.Base.Tests.{if◌then◌else◌, ltb}

module _ {ℓ} {A : Type ℓ} where
  abbrev pub length : List A → ℕ
  length [] = 0
  length (x ∷ xs) = suc (length xs)

  abbrev pub head? : List A → Option A
  head? [] = none
  head? (x ∷ xs) = some x

  -- SELECT … WHERE
  unfoldable pub select : (A → Bool) → List A → List A
  select p [] = []
  select p (x ∷ xs) = let rest = select p xs in if p x then x ∷ rest else rest

  -- rows[0] of a SELECT … WHERE
  unfoldable pub find_row : (A → Bool) → List A → Option A
  find_row p [] = none
  find_row p (x ∷ xs) = let rest = find_row p xs in if p x then some x else rest

  -- what a JavaScript `Map` built from the rows holds: the last row for a key wins
  unfoldable pub find_last : (A → Bool) → List A → Option A
  find_last p [] = none
  find_last p (x ∷ xs) = elim (find_last p xs) [
    | some y ↦ some y
    | none ↦ if p x then some x else none
  ]

  -- EXISTS (SELECT … WHERE)
  unfoldable pub any_row : (A → Bool) → List A → Bool
  any_row p [] = false
  any_row p (x ∷ xs) = p x || any_row p xs

  unfoldable pub all_rows : (A → Bool) → List A → Bool
  all_rows p [] = true
  all_rows p (x ∷ xs) = p x && all_rows p xs

  -- UPDATE … SET … WHERE
  unfoldable pub update_rows : (A → Bool) → (A → A) → List A → List A
  update_rows p f [] = []
  update_rows p f (x ∷ xs) = (if p x then f x else x) ∷ update_rows p f xs

  -- how many rows match, which is also the length of RETURNING
  unfoldable pub count_rows : (A → Bool) → List A → ℕ
  count_rows p [] = 0
  count_rows p (x ∷ xs) = let rest = count_rows p xs in if p x then suc rest else rest

  -- COALESCE(MAX(column), 0)
  unfoldable pub max_of : (A → ℕ) → List A → ℕ
  max_of column [] = 0
  max_of column (x ∷ xs) = max (column x) (max_of column xs)

  abbrev pub better : (A → ℕ) → A → Option A → Option A
  better column x none = some x
  better column x (some y) = if ltb (column x) (column y) then some y else some x

  -- ORDER BY column DESC LIMIT 1
  unfoldable pub latest : (A → ℕ) → List A → Option A
  latest column [] = none
  latest column (x ∷ xs) = better column x (latest column xs)
