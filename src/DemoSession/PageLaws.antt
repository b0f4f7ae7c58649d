-- ===== src/DemoSession/PageLaws.antt =====
-- modules/demo-session/demo-read.pagination.ts: pages that together give every row once.
use cost_engine_orchestratio.Base.{
  ℕ, zero, suc, ◌≤◌, ◌<◌, Bool, true, false, ◌≡◌, refl, ap, subst, ◌∙◌, Option, none, some, List,
  [], ◌++◌, if◌then◌else◌, nat_eq, string_eq, ltb, ltb→lt, length, select, arith,
}
use cost_engine_orchestratio.DemoSession.Cookies.{text_eq}
use cost_engine_orchestratio.DemoSession.Maintenance.{take_first}
use cost_engine_orchestratio.DemoSession.Pages.{
  Key, ReadPage, last_key, page_of, is_after, query_rows,
}
use cost_engine_orchestratio.DemoSession.PageOrder.{
  IsOrder, IsOrdered, take-drop, take-take_suc, take_all, drop_shorter, select-none, rest_after,
  no_last,
}

-- the pages from a key on, until one has no next
unfoldable pub read_pages :
    {A : Type 0} → (A → Key) → (Key → Key → Bool) → ℕ → ReadPage → List A → List A
unfolding page_of query_rows
read_pages key lt zero page ordered = []
read_pages key lt (suc fuel) page ordered =
    let (items, next) = page_of key page.limit (query_rows key lt page ordered) in
    elim next [
      | none ↦ items
      | some k ↦ items ++ read_pages key lt fuel (record page { after = some k }) ordered
    ]

module _ {A : Type 0} (key : A → Key) (lt : Key → Key → Bool) (o : IsOrder lt) where
  -- One page, and the pages after its last key.
  pages_step :
      (fuel : ℕ) (page : ReadPage) (ordered : List A)
      → 1 ≤ page.limit
      → IsOrdered key lt ordered
      → length (select (is_after key lt page.after) ordered) < suc fuel
      → ((k : Key)
          → length (select (is_after key lt (some k)) ordered) < fuel
          → read_pages key lt fuel (record page { after = some k }) ordered
            ≡ select (is_after key lt (some k)) ordered)
      → read_pages key lt (suc fuel) page ordered ≡ select (is_after key lt page.after) ordered
  unfolding read_pages
  pages_step fuel page ordered l h f later = by_length (ltb page.limit (length rows)) refl
    where
      rest : List A
      rest = select (is_after key lt page.after) ordered

      rows : List A
      rows = take_first (suc page.limit) rest

      items : List A
      items = take_first page.limit rows

      same : items ≡ take_first page.limit rest
      same = take-take_suc page.limit rest

      next_page : Option Key → List A
      next_page next = elim next [
        | none ↦ items
        | some k ↦ items ++ read_pages key lt fuel (record page { after = some k }) ordered
      ]

      more :
          (o : Option Key) → last_key key items ≡ o → page.limit < length rows → next_page o ≡ rest
      more none e longer = absurd (
          no_last key lt o page.limit rest l longer
            (subst (λ (ys : List A). last_key key ys ≡ none) same e))
      more (some k) e longer =
          let e' = subst (λ (ys : List A). last_key key ys ≡ some k) same e in
          let left = rest_after key lt o page.after k page.limit ordered h e' in
          let shorter = drop_shorter page.limit rest l longer in
          ap (λ (ys : List A). items ++ ys) (later k (rw left (omega (arith, shorter, f))))
          ∙ rw (left, same) (take-drop page.limit rest)

      by_length :
          (b : Bool)
          → ltb page.limit (length rows) ≡ b
          → next_page (if b then last_key key items else none) ≡ rest
      by_length true e = more (last_key key items) refl (ltb→lt page.limit (length rows) e)
      by_length false e = same ∙ take_all page.limit rest (ground (arith, e))

  read_pages_from :
      (fuel : ℕ) (page : ReadPage) (ordered : List A)
      → 1 ≤ page.limit
      → IsOrdered key lt ordered
      → length (select (is_after key lt page.after) ordered) < fuel
      → read_pages key lt fuel page ordered ≡ select (is_after key lt page.after) ordered
  read_pages_from zero page ordered l h f = absurd (omega arith)
  read_pages_from (suc fuel) page ordered l h f =
      pages_step fuel page ordered l h f
        (λ k g. read_pages_from fuel (record page { after = some k }) ordered l h g)

-- The pages of a read, each from the last key of the one before, give all rows in their order, once each,
-- when the limit is not 0.
pub read_pages_all :
    {A : Type 0} (key : A → Key) (lt : Key → Key → Bool) (limit : ℕ) (ordered : List A)
    → IsOrder lt
    → 1 ≤ limit
    → IsOrdered key lt ordered
    → read_pages key lt (suc (length ordered)) (record { limit = limit; after = none }) ordered
      ≡ ordered
read_pages_all key lt limit ordered o l h =
    read_pages_from key lt o (suc (length ordered)) (record { limit = limit; after = none }) ordered
      l h (rw (select-none key lt o ordered) (omega arith))
    ∙ select-none key lt o ordered
