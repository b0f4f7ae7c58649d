-- ===== src/Preparation/Numbers.antt =====
-- modules/calculation-job-preparation.repository.ts: the number of a new attempt, and the latest PUBLISHED
-- version of a series.
use cost_engine_orchestratio.Base.{
  ℕ, ◌≤◌, ◌<◌, String, ◌≡◌, refl, sym, ap, subst, ◌≢◌, inl, inr, Bool, false, ◌&&◌, Option, none,
  some, List, [], ◌∷◌, Memᴰ, arith, ltb, ltb→lt, Bool-cases, ◌==◌, nat_eq, string_eq, option_eq,
  eq_of_==, ==-refl, and-true, select, latest,
}
use cost_engine_orchestratio.Base.Rows.{mem-max_of}
use cost_engine_orchestratio.Store.Status.{
  published, dataset_status_eq, job_status_eq, attempt_status_eq, definition_status_eq,
}
use cost_engine_orchestratio.Store.Tables.{DatasetVersion, ExecutionAttempt}
use cost_engine_orchestratio.Store.Transaction.{Env}
use cost_engine_orchestratio.Preparation.Repository.{
  find_latest_published_upstream_version, allocate_next_attempt_number,
}
use cost_engine_orchestratio.Base.{better, ltb→lt}
use cost_engine_orchestratio.Base.Rows.{mem-cons_cases}
use cost_engine_orchestratio.Base.Rows.{select-mem, mem-select, mem-max_of}

-- A new attempt's number is above the numbers of all attempts of its job.
pub allocate_next_attempt_number-above :
    (job_id : String) (s : Env) (a : ExecutionAttempt)
    → Memᴰ a s.db.attempts
    → a.job_id ≡ job_id
    → a.attempt_number < allocate_next_attempt_number job_id s
unfolding allocate_next_attempt_number
allocate_next_attempt_number-above job_id s a m e =
    let in_job = mem-select (λ a. a.job_id == job_id) s.db.attempts m (rw e (==-refl job_id)) in
    omega (arith, mem-max_of (λ a. a.attempt_number) _ in_job)

not_less : (a b : ℕ) → ltb a b ≡ false → b ≤ a
not_less a b h = ground arith

module _ {A : Type 0} (column : A → ℕ) where
  better-none : (x : A) (o : Option A) → better column x o ≢ none
  better-none x none h = cc
  better-none x (some y) h = elim (Bool-cases (ltb (column x) (column y))) [
    | inl less ↦ ground (arith, h, less)
    | inr more ↦ ground (arith, h, more)
  ]

  latest-none : (xs : List A) {w : A} → latest column xs ≡ none → ¬ Memᴰ w xs
  unfolding latest
  latest-none [] h m = elim m [ ]
  latest-none (x ∷ xs) h m = better-none x (latest column xs) h

  -- the row is in the list, and no row is above it
  abbrev IsLatest : List A → A → Type 0
  IsLatest xs v = Memᴰ v xs × ((w : A) → Memᴰ w xs → column w ≤ column v)

  better-IsLatest :
      (x : A) (xs : List A) (o : Option A) {v : A}
      → latest column xs ≡ o
      → ((y : A) → latest column xs ≡ some y → IsLatest xs y)
      → better column x o ≡ some v
      → IsLatest (x ∷ xs) v
  better-IsLatest x xs none {v} e k h =
      let same : v ≡ x = cc in
      (
        Memᴰ.head same,
        λ w m. elim (mem-cons_cases m) [
          | inl q ↦ omega (arith, ap column q, ap column same)
          | inr n ↦ absurd (latest-none xs e n)
        ],
      )
  better-IsLatest x xs (some y) {v} e k h =
      let (my, above) = k y e in
      elim (Bool-cases (ltb (column x) (column y))) [
        | inl less ↦
            let same : v ≡ y = ground (arith, h, less) in
            (
              Memᴰ.tail (subst (λ (z : A). Memᴰ z xs) (sym same) my),
              λ w m. elim (mem-cons_cases m) [
                | inl q ↦
                    omega (arith, ap column q, ap column same, ltb→lt (column x) (column y) less)
                | inr n ↦ omega (arith, above w n, ap column same)
              ],
            )
        | inr more ↦
            let same : v ≡ x = ground (arith, h, more) in
            (
              Memᴰ.head same,
              λ w m. elim (mem-cons_cases m) [
                | inl q ↦ omega (arith, ap column q, ap column same)
                | inr n ↦
                    omega (arith, above w n, ap column same, not_less (column x) (column y) more)
              ],
            )
      ]

  latest-IsLatest : (xs : List A) {v : A} → latest column xs ≡ some v → IsLatest xs v
  unfolding latest
  latest-IsLatest [] h = cc
  latest-IsLatest (x ∷ xs) h =
      better-IsLatest x xs (latest column xs) refl (λ y e. latest-IsLatest xs e) h

-- The latest upstream version of a series is a PUBLISHED version of the series, and no PUBLISHED
-- version of the series is later.
pub find_latest_published_upstream_version-latest :
    (series_id : String) (s : Env) {v : DatasetVersion}
    → find_latest_published_upstream_version series_id s ≡ some v
    → Memᴰ v s.db.versions
      × (v.series_id ≡ series_id)
      × (v.status ≡ published)
      × ((w : DatasetVersion)
          → Memᴰ w s.db.versions
          → w.series_id ≡ series_id
          → w.status ≡ published
          → w.version ≤ v.version)
unfolding find_latest_published_upstream_version
find_latest_published_upstream_version-latest series_id s h =
    let eligible : DatasetVersion → Bool = λ v. v.series_id == series_id && v.status == published in
    let (m, above) = latest-IsLatest (λ v. v.version) (select eligible s.db.versions) h in
    let (there, fits) = select-mem eligible s.db.versions m in
    (
      there,
      eq_of_== (and-true fits).0,
      eq_of_== ⦃e = dataset_status_eq⦄ (and-true fits).1,
      λ w mw es ep.
          above w (mem-select eligible s.db.versions mw (rw (es, ep, ==-refl series_id) refl)),
    )
