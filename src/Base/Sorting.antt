-- ===== src/Base/Sorting.antt =====
-- ORDER BY and DISTINCT: a stable sort by a given order, and the removal of duplicates.
use cost_engine_orchestratio.Base.Tests.{if◌then◌else◌}
use mathlib.Core.Bool.{Bool}
use mathlib.Core.List.{List, [], ◌∷◌}
use cost_engine_orchestratio.Base.Lists.{any_row}

module _ {ℓ} {A : Type ℓ} where
  insert_by : (A → A → Bool) → A → List A → List A
  insert_by le x [] = x ∷ []
  insert_by le x (y ∷ ys) =
      let later = y ∷ insert_by le x ys in if le x y then x ∷ y ∷ ys else later

  -- ORDER BY
  unfoldable pub sort_by : (A → A → Bool) → List A → List A
  unfolding insert_by
  sort_by le [] = []
  sort_by le (x ∷ xs) = insert_by le x (sort_by le xs)

  -- SELECT DISTINCT
  unfoldable pub distinct : (A → A → Bool) → List A → List A
  unfolding any_row
  distinct same [] = []
  distinct same (x ∷ xs) =
      let rest = distinct same xs in if any_row (same x) xs then rest else x ∷ rest
