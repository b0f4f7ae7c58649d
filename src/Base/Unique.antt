-- ===== src/Base/Unique.antt =====
-- Rows that a key identifies, among those with a property, and what keeps them so.
use Prim.Native.String.{String}
use mathlib.Core.Path.{◌≡◌, refl, sym, ap, subst, fun_ext, ◌∙◌}
use mathlib.Core.Logic.{inl, inr}
use mathlib.Core.Bool.{Bool, true, false, ◌&&◌, and-true}
use mathlib.Core.List.{List, [], ◌∷◌, ◌++◌, Memᴰ}
use native.Mathlib.Omega.{arith}
use cost_engine_orchestratio.Base.Tests.{if◌then◌else◌, Bool-cases, ◌==◌, string_eq, ==-refl}
use cost_engine_orchestratio.Base.Lists.{update_rows, any_row}
use cost_engine_orchestratio.Base.Rows.{
  mem-append_cases, mem-single, any_row-none, any_row-mem, mem-any_row, mem-update_rows,
  update_rows-mem,
}

module _ {A : Type 0} where
  -- Two rows with the property and the same key are one row.
  abbrev pub UniqueOn : (A → Bool) → (A → String) → List A → Type 0
  UniqueOn p key xs =
      (x y : A) → Memᴰ x xs → Memᴰ y xs → p x ≡ true → p y ≡ true → key x ≡ key y → x ≡ y

  abbrev pub Unique : (A → String) → List A → Type 0
  Unique key xs = (x y : A) → Memᴰ x xs → Memᴰ y xs → key x ≡ key y → x ≡ y

  -- the row that an update makes of a row
  abbrev pub image : (A → Bool) → (A → A) → A → A
  image cond set x = if cond x then set x else x

  pub key-image :
      {B : Type 0} (key : A → B) (cond : A → Bool) (set : A → A)
      → ((x : A) → key (set x) ≡ key x)
      → (x : A) → key (image cond set x) ≡ key x
  key-image key cond set keeps x = elim (Bool-cases (cond x)) [
    | inl hit ↦ rw hit (keeps x)
    | inr miss ↦ rw miss refl
  ]

  -- What holds of the image of each row holds of each row after the update.
  pub each-update {ℓ} :
      (P : A → Type ℓ) (cond : A → Bool) (set : A → A) (xs : List A)
      → ((x : A) → Memᴰ x xs → P (image cond set x))
      → (y : A) → Memᴰ y (update_rows cond set xs)
      → P y
  each-update P cond set xs h y m =
      let (x, n, e) = mem-update_rows cond set xs m in subst P (sym e) (h x n)

  pub UniqueOn-update :
      (p : A → Bool) (key : A → String) (cond : A → Bool) (set : A → A) (xs : List A)
      → ((x : A) → key (set x) ≡ key x)
      → ((x : A) → p (image cond set x) ≡ true → p x ≡ true)
      → UniqueOn p key xs
      → UniqueOn p key (update_rows cond set xs)
  UniqueOn-update p key cond set xs keeps back u x' y' mx my px py e =
      let (x, nx, ex) = mem-update_rows cond set xs mx in
      let (y, ny, ey) = mem-update_rows cond set xs my in
      let px' = subst (λ (z : A). p z ≡ true) ex px in
      let py' = subst (λ (z : A). p z ≡ true) ey py in
      let e' =
        sym (key-image key cond set keeps x)
        ∙ sym (ap key ex)
        ∙ e
        ∙ ap key ey
        ∙ key-image key cond set keeps y in
      ex ∙ ap (image cond set) (u x y nx ny (back x px') (back y py') e') ∙ sym ey

  pub Unique-update :
      (key : A → String) (cond : A → Bool) (set : A → A) (xs : List A)
      → ((x : A) → key (set x) ≡ key x)
      → Unique key xs
      → Unique key (update_rows cond set xs)
  Unique-update key cond set xs keeps u x' y' mx my e =
      UniqueOn-update (λ _. true) key cond set xs keeps (λ _ h. h) (λ x y m n _ _ k. u x y m n k) x'
        y' mx my refl refl e

  -- A row may be inserted when the table has no row with its key and the property.
  pub UniqueOn-append :
      (p : A → Bool) (key : A → String) (xs : List A) (a : A)
      → (p a ≡ true → any_row (λ b. key b == key a && p b) xs ≡ false)
      → UniqueOn p key xs
      → UniqueOn p key (xs ++ a ∷ [])
  UniqueOn-append p key xs a free u x y mx my px py e = elim (mem-append_cases xs mx) [
    | inl nx ↦ elim (mem-append_cases xs my) [
      | inl ny ↦ u x y nx ny px py e
      | inr ny ↦ absurd (clash x y nx (mem-single ny) px py e)
    ]
    | inr nx ↦ elim (mem-append_cases xs my) [
      | inl ny ↦ absurd (clash y x ny (mem-single nx) py px (sym e))
      | inr ny ↦ mem-single nx ∙ sym (mem-single ny)
    ]
  ]
    where
      clash : (x y : A) → Memᴰ x xs → y ≡ a → p x ≡ true → p y ≡ true → key x ≡ key y → ⊥
      clash x y nx ey px py e =
          let pa : p a ≡ true = subst (λ (z : A). p z ≡ true) ey py in
          let no = any_row-none (λ b. key b == key a && p b) xs (free pa) nx in
          let same : (key x == key a) ≡ true =
            subst (λ (k : String). (key x == k) ≡ true) (e ∙ ap key ey) (==-refl (key x)) in
          ground (arith, no, same, px)

  pub Unique-append :
      (key : A → String) (xs : List A) (a : A)
      → any_row (λ b. key b == key a) xs ≡ false
      → Unique key xs
      → Unique key (xs ++ a ∷ [])
  Unique-append key xs a free u x y mx my e =
      UniqueOn-append (λ _. true) key xs a
        (λ _. ap (λ (p : A → Bool). any_row p xs) (fun_ext λ b. and-true (key b == key a)) ∙ free)
        (λ x y m n _ _ k. u x y m n k) x y mx my refl refl e

  -- A reference to a key holds on to the key through an update and an insertion.
  pub any_row-key-update :
      (key : A → String) (k : String) (cond : A → Bool) (set : A → A) (xs : List A)
      → ((x : A) → key (set x) ≡ key x)
      → any_row (λ x. key x == k) xs ≡ true
      → any_row (λ x. key x == k) (update_rows cond set xs) ≡ true
  any_row-key-update key k cond set xs keeps h =
      let (x, m, e) = any_row-mem (λ x. key x == k) xs h in
      mem-any_row (λ x. key x == k) (update_rows cond set xs) (update_rows-mem cond set xs m)
        (rw (key-image key cond set keeps x) e)
