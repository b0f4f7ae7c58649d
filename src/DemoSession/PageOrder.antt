-- ===== src/DemoSession/PageOrder.antt =====
-- modules/demo-session/demo-read.repository.ts: the rows that follow a page, in the order of their keys.
use cost_engine_orchestratio.Base.{
  ℕ, zero, suc, ◌≤◌, ◌<◌, Bool, true, false, ◌≡◌, ◌≢◌, refl, sym, ap, subst, ◌∙◌, Option, none,
  some, List, [], ◌∷◌, ◌++◌, Memᴰ, nat_eq, string_eq, length, select, Bool-cases, inl, inr, arith,
}
use cost_engine_orchestratio.Base.Rows.{select-mem}
use cost_engine_orchestratio.DemoSession.Cookies.{text_eq}
use cost_engine_orchestratio.DemoSession.Maintenance.{take_first}
use cost_engine_orchestratio.DemoSession.Pages.{Key, last_key, is_after}

module _ {A : Type 0} where
  unfoldable pub drop_first : ℕ → List A → List A
  drop_first zero xs = xs
  drop_first (suc n) [] = []
  drop_first (suc n) (x ∷ xs) = drop_first n xs

  pub take-drop : (n : ℕ) (xs : List A) → take_first n xs ++ drop_first n xs ≡ xs
  unfolding take_first drop_first
  take-drop zero xs = refl
  take-drop (suc n) [] = refl
  take-drop (suc n) (x ∷ xs) = ap (λ (ys : List A). x ∷ ys) (take-drop n xs)

  pub take-take_suc : (n : ℕ) (xs : List A) → take_first n (take_first (suc n) xs) ≡ take_first n xs
  unfolding take_first
  take-take_suc zero xs = refl
  take-take_suc (suc n) [] = refl
  take-take_suc (suc n) (x ∷ xs) = ap (λ (ys : List A). x ∷ ys) (take-take_suc n xs)

  -- A page that is not over its limit holds all that is left.
  pub take_all : (n : ℕ) (xs : List A) → length (take_first (suc n) xs) ≤ n → take_first n xs ≡ xs
  unfolding take_first
  take_all zero [] h = refl
  take_all (suc n) [] h = refl
  take_all zero (x ∷ xs) h = absurd (omega arith)
  take_all (suc n) (x ∷ xs) h = ap (λ (ys : List A). x ∷ ys) (take_all n xs (omega arith))

  pub drop_shorter :
      (n : ℕ) (xs : List A)
      → 1 ≤ n
      → n < length (take_first (suc n) xs)
      → length (drop_first n xs) < length xs
  unfolding take_first drop_first
  drop_shorter zero xs h k = absurd (omega arith)
  drop_shorter (suc n) [] h k = absurd (omega arith)
  drop_shorter (suc n) (x ∷ xs) h k = omega (arith, drop_le n xs)
    where
      drop_le : (n : ℕ) (ys : List A) → length (drop_first n ys) ≤ length ys
      drop_le zero ys = omega arith
      drop_le (suc n) [] = omega arith
      drop_le (suc n) (y ∷ ys) = omega (arith, drop_le n ys)

-- an order of keys
pub record IsOrder (lt : Key → Key → Bool) : Type 0 where
  pub irreflexive : (a : Key) → lt a a ≡ false
  pub transitive : (a b c : Key) → lt a b ≡ true → lt b c ≡ true → lt a c ≡ true

module _ {A : Type 0} (key : A → Key) (lt : Key → Key → Bool) where
  -- The rows in the order of their keys.
  abbrev pub IsOrdered : List A → Type 0
  IsOrdered [] = Unit {0}
  IsOrdered (x ∷ xs) = ((y : A) → Memᴰ y xs → lt (key x) (key y) ≡ true) × IsOrdered xs

key_inj : {a b : Key} → ◌≡◌ {A = Option Key} (some a) (some b) → a ≡ b
key_inj h = cc

module _ {A : Type 0} (key : A → Key) where
  pub last_key-mem :
      (n : ℕ) (xs : List A) {k : Key}
      → last_key key (take_first n xs) ≡ some k
      → (z : A) × Memᴰ z xs × (key z ≡ k)
  unfolding take_first last_key
  last_key-mem zero xs e = cc
  last_key-mem (suc n) [] e = cc
  last_key-mem (suc zero) (x ∷ xs) e = (x, Memᴰ.head refl, key_inj e)
  last_key-mem (suc (suc n)) (x ∷ []) e = (x, Memᴰ.head refl, key_inj e)
  last_key-mem (suc (suc n)) (x ∷ y ∷ xs) e =
      let (z, m, f) = last_key-mem (suc n) (y ∷ xs) e in (z, Memᴰ.tail m, f)

module _ {A : Type 0} (key : A → Key) (lt : Key → Key → Bool) (o : IsOrder lt) where
  above : Key → A → Bool
  above k x = lt k (key x)

  select-all :
      (k : Key) (xs : List A)
      → ((x : A) → Memᴰ x xs → lt k (key x) ≡ true)
      → select (above k) xs ≡ xs
  unfolding select above
  select-all k [] h = refl
  select-all k (x ∷ xs) h =
      rw (h x (Memᴰ.head refl))
        (ap (λ (ys : List A). x ∷ ys) (select-all k xs (λ y m. h y (Memᴰ.tail m))))

  own : (x : A) (k : Key) → key x ≡ k → lt k (key x) ≡ false
  own x k e = rw e (o.irreflexive k)

  not_above : (x : A) (k : Key) → lt (key x) k ≡ true → lt k (key x) ≡ false
  not_above x k h = elim (Bool-cases (lt k (key x))) [
    | inl e ↦ ground (arith, o.irreflexive k, o.transitive k (key x) k e h)
    | inr e ↦ e
  ]

  -- After the last key of a page come the rows that the page leaves.
  select-last :
      (n : ℕ) (xs : List A) (k : Key)
      → IsOrdered key lt xs
      → last_key key (take_first n xs) ≡ some k
      → select (above k) xs ≡ drop_first n xs
  unfolding take_first last_key select above drop_first
  select-last zero xs k h e = cc
  select-last (suc n) [] k h e = cc
  select-last (suc zero) (x ∷ xs) k h e =
      rw (own x k (key_inj e))
        (select-all k xs (λ y m. subst (λ (a : Key). lt a (key y) ≡ true) (key_inj e) (h.0 y m)))
  select-last (suc (suc n)) (x ∷ []) k h e = rw (own x k (key_inj e)) refl
  select-last (suc (suc n)) (x ∷ y ∷ xs) k h e =
      let (z, m, f) = last_key-mem key (suc n) (y ∷ xs) e in
      let lower : lt (key x) k ≡ true = subst (λ (a : Key). lt (key x) a ≡ true) f (h.0 z m) in
      rw (not_above x k lower) (select-last (suc n) (y ∷ xs) k h.1 e)

  -- A later key selects from what an earlier one selected.
  select-select :
      (a k : Key) (xs : List A)
      → lt a k ≡ true
      → select (above k) (select (above a) xs) ≡ select (above k) xs
  unfolding select above
  select-select a k [] h = refl
  select-select a k (x ∷ xs) h = elim (Bool-cases (lt a (key x))) [
    | inl e ↦ rw e (elim (Bool-cases (lt k (key x))) [
      | inl f ↦ rw f (ap (λ (ys : List A). x ∷ ys) (select-select a k xs h))
      | inr f ↦ rw f (select-select a k xs h)
    ])
    | inr e ↦ elim (Bool-cases (lt k (key x))) [
      | inl f ↦ ground (arith, e, o.transitive a k (key x) h f)
      | inr f ↦ rw (e, f) (select-select a k xs h)
    ]
  ]

  IsOrdered-select :
      (p : A → Bool) (xs : List A) → IsOrdered key lt xs → IsOrdered key lt (select p xs)
  unfolding select
  IsOrdered-select p [] h = h
  IsOrdered-select p (x ∷ xs) h = elim (Bool-cases (p x)) [
    | inl e ↦ rw e ((λ y m. h.0 y (select-mem p xs m).0), IsOrdered-select p xs h.1)
    | inr e ↦ rw e (IsOrdered-select p xs h.1)
  ]

  pub select-none : (xs : List A) → select (is_after key lt none) xs ≡ xs
  unfolding select
  select-none [] = refl
  select-none (x ∷ xs) = ap (λ (ys : List A). x ∷ ys) (select-none xs)

  -- The rows after the last key of what was read so far.
  pub rest_after :
      (after : Option Key) (k : Key) (n : ℕ) (xs : List A)
      → IsOrdered key lt xs
      → last_key key (take_first n (select (is_after key lt after) xs)) ≡ some k
      → select (is_after key lt (some k)) xs ≡ drop_first n (select (is_after key lt after) xs)
  unfolding above
  rest_after none k n xs h e =
      let e' =
        subst (λ (ys : List A). last_key key (take_first n ys) ≡ some k) (select-none xs) e in
      rw (select-none xs) (select-last n xs k h e')
  rest_after (some a) k n xs h e =
      let (z, m, f) = last_key-mem key n (select (above a) xs) e in
      let later : lt a k ≡ true =
        subst (λ (b : Key). lt a b ≡ true) f (select-mem (above a) xs m).1 in
      sym (select-select a k xs later)
      ∙ select-last n (select (above a) xs) k (IsOrdered-select (above a) xs h) e

  has_last : (x : A) (xs : List A) → last_key key (x ∷ xs) ≢ none
  unfolding last_key
  has_last x [] e = cc
  has_last x (y ∷ xs) e = has_last y xs e

  pub no_last :
      (n : ℕ) (xs : List A)
      → 1 ≤ n
      → n < length (take_first (suc n) xs)
      → last_key key (take_first n xs) ≢ none
  unfolding take_first
  no_last zero xs h k e = absurd (omega arith)
  no_last (suc n) [] h k e = absurd (omega arith)
  no_last (suc n) (x ∷ xs) h k e = has_last x (take_first n xs) e
