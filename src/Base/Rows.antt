-- ===== src/Base/Rows.antt =====
-- What the queries and updates of Base/Lists.antt return, row by row.
use Prim.Native.Nat.{ℕ, suc, ◌≤◌}
use mathlib.Core.Path.{◌≡◌, refl, ap, subst, ◌∙◌}
use mathlib.Core.Bool.{Bool, true, false}
use mathlib.Core.Logic.{◌⊎◌, inl, inr}
use mathlib.Core.Option.{none, some}
use mathlib.Core.List.{List, [], ◌∷◌, ◌++◌, Memᴰ}
use native.Mathlib.Omega.{arith}
use cost_engine_orchestratio.Base.Tests.{if◌then◌else◌, Bool-cases}
use cost_engine_orchestratio.Base.Lists.{
  length, find_row, any_row, select, all_rows, update_rows, max_of,
}

module _ {A : Type 0} where
  pub mem-append_cases :
      {a : A} (xs : List A) {ys : List A} → Memᴰ a (xs ++ ys) → Memᴰ a xs ⊎ Memᴰ a ys
  mem-append_cases [] m = inr m
  mem-append_cases (x ∷ xs) (Memᴰ.head e) = inl (Memᴰ.head e)
  mem-append_cases (x ∷ xs) (Memᴰ.tail m) = elim (mem-append_cases xs m) [
    | inl l ↦ inl (Memᴰ.tail l)
    | inr r ↦ inr r
  ]

  pub mem-cons_cases : {a b : A} {xs : List A} → Memᴰ a (b ∷ xs) → (a ≡ b) ⊎ Memᴰ a xs
  mem-cons_cases (Memᴰ.head e) = inl e
  mem-cons_cases (Memᴰ.tail m) = inr m

  pub mem-single : {a b : A} → Memᴰ a (b ∷ []) → a ≡ b
  mem-single (Memᴰ.head e) = e
  mem-single (Memᴰ.tail m) = elim m [ ]

  -- The row that a lookup returns is in the table, and meets the condition.
  pub find_row-mem :
      (p : A → Bool) (xs : List A) {x : A} → find_row p xs ≡ some x → Memᴰ x xs × (p x ≡ true)
  unfolding find_row
  find_row-mem p [] h = cc
  find_row-mem p (y ∷ ys) h = elim (Bool-cases (p y)) [
    | inl hit ↦ (Memᴰ.head (ground arith), ground arith)
    | inr miss ↦ let (m, q) = find_row-mem p ys (ground arith) in (Memᴰ.tail m, q)
  ]

  -- A lookup that returns nothing proves that no row meets the condition.
  pub find_row-none :
      (p : A → Bool) (xs : List A) {x : A} → find_row p xs ≡ none → Memᴰ x xs → p x ≡ false
  unfolding find_row
  find_row-none p [] h m = elim m [ ]
  find_row-none p (y ∷ ys) h (Memᴰ.head e) = ground (arith, ap p e)
  find_row-none p (y ∷ ys) h (Memᴰ.tail m) = find_row-none p ys (ground arith) m

  pub any_row-none :
      (p : A → Bool) (xs : List A) {x : A} → any_row p xs ≡ false → Memᴰ x xs → p x ≡ false
  unfolding any_row
  any_row-none p [] h m = elim m [ ]
  any_row-none p (y ∷ ys) h (Memᴰ.head e) = ground (arith, ap p e)
  any_row-none p (y ∷ ys) h (Memᴰ.tail m) = any_row-none p ys (ground arith) m

  pub any_row-mem :
      (p : A → Bool) (xs : List A) → any_row p xs ≡ true → (x : A) × Memᴰ x xs × (p x ≡ true)
  unfolding any_row
  any_row-mem p [] h = cc
  any_row-mem p (y ∷ ys) h = elim (Bool-cases (p y)) [
    | inl hit ↦ (y, Memᴰ.head refl, hit)
    | inr miss ↦ let (x, m, q) = any_row-mem p ys (ground arith) in (x, Memᴰ.tail m, q)
  ]

  pub mem-any_row :
      (p : A → Bool) (xs : List A) {x : A} → Memᴰ x xs → p x ≡ true → any_row p xs ≡ true
  unfolding any_row
  mem-any_row p [] m h = elim m [ ]
  mem-any_row p (y ∷ ys) (Memᴰ.head e) h = ground (arith, ap p e)
  mem-any_row p (y ∷ ys) (Memᴰ.tail m) h = ground (arith, mem-any_row p ys m h)

  -- Each row after an UPDATE is the image of a row before it.
  pub mem-update_rows :
      (p : A → Bool) (f : A → A) (xs : List A) {y : A}
      → Memᴰ y (update_rows p f xs)
      → (x : A) × Memᴰ x xs × (y ≡ (if p x then f x else x))
  unfolding update_rows
  mem-update_rows p f [] m = elim m [ ]
  mem-update_rows p f (x ∷ xs) (Memᴰ.head e) = (x, Memᴰ.head refl, e)
  mem-update_rows p f (x ∷ xs) (Memᴰ.tail m) =
      let (z, n, e) = mem-update_rows p f xs m in (z, Memᴰ.tail n, e)

  -- Each row before an UPDATE has its image after it.
  pub update_rows-mem :
      (p : A → Bool) (f : A → A) (xs : List A) {x : A}
      → Memᴰ x xs
      → Memᴰ (if p x then f x else x) (update_rows p f xs)
  unfolding update_rows
  update_rows-mem p f [] m = elim m [ ]
  update_rows-mem p f (x ∷ xs) (Memᴰ.head e) = Memᴰ.head (ap (λ (z : A). if p z then f z else z) e)
  update_rows-mem p f (x ∷ xs) (Memᴰ.tail m) = Memᴰ.tail (update_rows-mem p f xs m)

  pub length-update_rows :
      (p : A → Bool) (f : A → A) (xs : List A) → length (update_rows p f xs) ≡ length xs
  unfolding update_rows
  length-update_rows p f [] = refl
  length-update_rows p f (x ∷ xs) = ap suc (length-update_rows p f xs)

  pub mem-max_of : (column : A → ℕ) (xs : List A) {x : A} → Memᴰ x xs → column x ≤ max_of column xs
  unfolding max_of
  mem-max_of column [] m = elim m [ ]
  mem-max_of column (y ∷ ys) (Memᴰ.head e) = omega (arith, ap column e)
  mem-max_of column (y ∷ ys) (Memᴰ.tail m) = omega (arith, mem-max_of column ys m)

  -- An update that changes no row.
  pub update_rows_self : (p : A → Bool) (xs : List A) → update_rows p (λ x. x) xs ≡ xs
  unfolding update_rows
  update_rows_self p [] = refl
  update_rows_self p (x ∷ xs) = elim (Bool-cases (p x)) [
    | inl hit ↦ rw (hit, update_rows_self p xs)
    | inr miss ↦ rw (miss, update_rows_self p xs)
  ]

  -- A row that meets the condition is selected.
  pub mem-select :
      (p : A → Bool) (xs : List A) {x : A} → Memᴰ x xs → p x ≡ true → Memᴰ x (select p xs)
  unfolding select
  mem-select p [] m h = elim m [ ]
  mem-select p (y ∷ ys) {x} (Memᴰ.head e) h = rw (subst (λ (z : A). p z ≡ true) e h) (Memᴰ.head e)
  mem-select p (y ∷ ys) (Memᴰ.tail m) h = elim (Bool-cases (p y)) [
    | inl hit ↦ rw hit (Memᴰ.tail (mem-select p ys m h))
    | inr miss ↦ rw miss (mem-select p ys m h)
  ]

  -- Each row meets a condition that all of them meet.
  pub all_rows-mem :
      (p : A → Bool) (xs : List A) {x : A} → all_rows p xs ≡ true → Memᴰ x xs → p x ≡ true
  unfolding all_rows
  all_rows-mem p [] h m = elim m [ ]
  all_rows-mem p (y ∷ ys) h (Memᴰ.head e) = ground (arith, ap p e)
  all_rows-mem p (y ∷ ys) h (Memᴰ.tail m) = all_rows-mem p ys (ground arith) m

  pub any_row-append :
      (p : A → Bool) (xs : List A) (a : A) → any_row p xs ≡ true → any_row p (xs ++ a ∷ []) ≡ true
  unfolding any_row
  any_row-append p [] a h = cc
  any_row-append p (y ∷ ys) a h = elim (Bool-cases (p y)) [
    | inl hit ↦ rw hit refl
    | inr miss ↦ rw miss (any_row-append p ys a (ground arith))
  ]

  pub mem-append_left : (xs ys : List A) {x : A} → Memᴰ x xs → Memᴰ x (xs ++ ys)
  mem-append_left [] ys m = elim m [ ]
  mem-append_left (z ∷ xs) ys (Memᴰ.head e) = Memᴰ.head e
  mem-append_left (z ∷ xs) ys (Memᴰ.tail m) = Memᴰ.tail (mem-append_left xs ys m)

  pub mem-append_last : (xs : List A) (a : A) → Memᴰ a (xs ++ a ∷ [])
  mem-append_last [] a = Memᴰ.head refl
  mem-append_last (z ∷ xs) a = Memᴰ.tail (mem-append_last xs a)

  -- A row that an UPDATE matches is there with its new columns.
  pub update_rows-hit :
      (p : A → Bool) (f : A → A) (xs : List A) {x : A}
      → Memᴰ x xs
      → p x ≡ true
      → Memᴰ (f x) (update_rows p f xs)
  update_rows-hit p f xs {x} m h =
      subst (λ (b : Bool). Memᴰ (if b then f x else x) (update_rows p f xs)) h
        (update_rows-mem p f xs m)

  -- A selected row is in the table, and meets the condition.
  pub select-mem :
      (p : A → Bool) (xs : List A) {x : A} → Memᴰ x (select p xs) → Memᴰ x xs × (p x ≡ true)
  unfolding select
  select-mem p [] m = elim m [ ]
  select-mem p (y ∷ ys) {x} m = elim (Bool-cases (p y)) [
    | inr miss ↦
        let m' = subst (λ (b : Bool). Memᴰ x (if b then y ∷ select p ys else select p ys)) miss m in
        let (n, h) = select-mem p ys m' in (Memᴰ.tail n, h)
    | inl hit ↦
        elim (mem-cons_cases
          (subst (λ (b : Bool). Memᴰ x (if b then y ∷ select p ys else select p ys)) hit m)) [
            | inl e ↦ (Memᴰ.head e, ap p e ∙ hit)
            | inr n ↦ let (n', h) = select-mem p ys n in (Memᴰ.tail n', h)
          ]
  ]
