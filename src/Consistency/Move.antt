-- ===== src/Consistency/Move.antt =====
-- An active attempt takes another status, and its job with it.
use cost_engine_orchestratio.Base.{
  ◌≡◌, sym, ap, subst, ◌∙◌, inl, inr, Bool, true, false, List, Memᴰ, arith, if◌then◌else◌,
  Bool-cases, ◌==◌, nat_eq, string_eq, option_eq, any_row, update_rows,
}
use cost_engine_orchestratio.Store.Status.{
  building, succeeded, AttemptStatus, dataset_status_eq, job_status_eq, attempt_status_eq,
  definition_status_eq, is_active_attempt,
}
use cost_engine_orchestratio.Store.Tables.{DatasetVersion, CalculationJob, ExecutionAttempt}
use cost_engine_orchestratio.Base.Unique.{
  image, key-image, UniqueOn-update, Unique-update, any_row-key-update, each-update,
}
use cost_engine_orchestratio.Consistency.Invariant.{
  compatible, is_validated, AttemptOwned, JobOwned, Compatible, ActiveInBuilding,
  ValidatedSucceeded, Consistent,
}

-- The attempt `a0` and its job `j0` are the rows that two updates change.
pub record Move (js : List CalculationJob) (ats : List ExecutionAttempt) (a0 : ExecutionAttempt)
    (j0 : CalculationJob) (ca : ExecutionAttempt → Bool) (fa : ExecutionAttempt → ExecutionAttempt)
    (cj : CalculationJob → Bool) (fj : CalculationJob → CalculationJob) : Type 0 where
  pub attempt_in : Memᴰ a0 ats
  pub job_in : Memᴰ j0 js
  pub owner : a0.job_id ≡ j0.id
  pub was_active : (a : ExecutionAttempt) → ca a ≡ true → is_active_attempt a.status ≡ true
  pub attempt_hit : ca a0 ≡ true
  pub attempt_only : (a : ExecutionAttempt) → ca a ≡ true → a.id ≡ a0.id
  pub job_hit : cj j0 ≡ true
  pub job_only : (j : CalculationJob) → cj j ≡ true → j.id ≡ j0.id
  pub attempt_keys : (a : ExecutionAttempt) → (fa a).id ≡ a.id
  pub attempt_jobs : (a : ExecutionAttempt) → (fa a).job_id ≡ a.job_id
  pub job_keys : (j : CalculationJob) → (fj j).id ≡ j.id
  pub job_versions : (j : CalculationJob) → (fj j).dataset_version_id ≡ j.dataset_version_id
  pub fits : compatible (fj j0).status (fa a0).status ≡ true
  pub others :
      (r : AttemptStatus)
      → is_active_attempt r ≡ false
      → compatible j0.status r ≡ true
      → compatible (fj j0).status r ≡ true

module _ {vs : List DatasetVersion} {js : List CalculationJob} {ats : List ExecutionAttempt}
    {a0 : ExecutionAttempt} {j0 : CalculationJob} {ca : ExecutionAttempt → Bool}
    {fa : ExecutionAttempt → ExecutionAttempt} {cj : CalculationJob → Bool}
    {fj : CalculationJob → CalculationJob} (c : Consistent vs js ats)
    (m : Move js ats a0 j0 ca fa cj fj) where
  hit_attempt : (a : ExecutionAttempt) → Memᴰ a ats → ca a ≡ true → a ≡ a0
  hit_attempt a ma h = c.attempt_ids a a0 ma m.attempt_in (m.attempt_only a h)

  hit_job : (j : CalculationJob) → Memᴰ j js → cj j ≡ true → j ≡ j0
  hit_job j mj h = c.job_ids j j0 mj m.job_in (m.job_only j h)

  -- an attempt of the job that is not the moved one is not active
  bystander :
      (a : ExecutionAttempt)
      → Memᴰ a ats
      → a.job_id ≡ j0.id
      → ca a ≡ false
      → is_active_attempt a.status ≡ false
  bystander a ma e miss = elim (Bool-cases (is_active_attempt a.status)) [
    | inr idle ↦ idle
    | inl active ↦
        let same =
          c.one_active a a0 ma m.attempt_in active (m.was_active a0 m.attempt_hit)
            (e ∙ sym m.owner) in
        absurd (elim (Bool-cases (ca a)) [
          | inl h ↦ cc
          | inr h ↦ let k = ap ca same in ground (arith, k, m.attempt_hit, miss)
        ])
  ]

  row_statuses :
      (j : CalculationJob) (a : ExecutionAttempt)
      → Memᴰ j js
      → Memᴰ a ats
      → a.job_id ≡ j.id
      → compatible (image cj fj j).status (image ca fa a).status ≡ true
  row_statuses j a mj ma e = elim (Bool-cases (ca a)) [
    | inl ha ↦
        let ea = hit_attempt a ma ha in
        let ej =
          c.job_ids j j0 mj m.job_in
            (sym e ∙ ap (λ (x : ExecutionAttempt). x.job_id) ea ∙ m.owner) in
        rw (ea, ej, m.attempt_hit, m.job_hit) m.fits
    | inr ma' ↦ elim (Bool-cases (cj j)) [
      | inl hj ↦
          let ej = hit_job j mj hj in
          let idle = bystander a ma (e ∙ ap (λ (x : CalculationJob). x.id) ej) ma' in
          let before =
            subst (λ (x : CalculationJob). compatible x.status a.status ≡ true) ej
              (c.statuses j a mj ma e) in
          rw (ma', ej, m.job_hit) (m.others a.status idle before)
      | inr mj' ↦ rw (ma', mj') (c.statuses j a mj ma e)
    ]
  ]

  image_active :
      (a : ExecutionAttempt)
      → is_active_attempt (image ca fa a).status ≡ true
      → is_active_attempt a.status ≡ true
  image_active a h = elim (Bool-cases (ca a)) [
    | inl hit ↦ m.was_active a hit
    | inr miss ↦
        subst (λ (b : Bool). is_active_attempt (if b then fa a else a).status ≡ true) miss h
  ]

  row_validated :
      (v : DatasetVersion) (j : CalculationJob)
      → Memᴰ v vs
      → Memᴰ j js
      → j.dataset_version_id ≡ v.id
      → is_validated v.status ≡ true
      → (image cj fj j).status ≡ succeeded
  row_validated v j mv mj e h = elim (Bool-cases (cj j)) [
    | inl hit ↦
        let ej = hit_job j mj hit in
        let b =
          c.active_in_building v j a0 mv mj m.attempt_in e
            (m.owner ∙ sym (ap (λ (x : CalculationJob). x.id) ej))
            (m.was_active a0 m.attempt_hit) in
        absurd (ground (arith, b, h))
    | inr miss ↦ rw miss (c.validated_succeeded v j mv mj e h)
  ]

  owner-image :
      (a : ExecutionAttempt) (j : CalculationJob)
      → (image ca fa a).job_id ≡ (image cj fj j).id
      → a.job_id ≡ j.id
  owner-image a j e =
      sym (key-image (λ (a : ExecutionAttempt). a.job_id) ca fa m.attempt_jobs a)
      ∙ e
      ∙ key-image (λ (j : CalculationJob). j.id) cj fj m.job_keys j

  version-image :
      (j : CalculationJob) (v : DatasetVersion)
      → (image cj fj j).dataset_version_id ≡ v.id
      → j.dataset_version_id ≡ v.id
  version-image j v e =
      sym (key-image (λ (j : CalculationJob). j.dataset_version_id) cj fj m.job_versions j) ∙ e

  move-AttemptOwned : AttemptOwned (update_rows cj fj js) (update_rows ca fa ats)
  move-AttemptOwned =
      each-update (λ a. any_row (λ j. j.id == a.job_id) (update_rows cj fj js) ≡ true) ca fa ats
        λ a ma.
          rw (key-image (λ (a : ExecutionAttempt). a.job_id) ca fa m.attempt_jobs a)
            (any_row-key-update (λ j. j.id) a.job_id cj fj js m.job_keys (c.attempt_owned a ma))

  move-JobOwned : JobOwned vs (update_rows cj fj js)
  move-JobOwned =
      each-update (λ j. any_row (λ v. v.id == j.dataset_version_id) vs ≡ true) cj fj js
        λ j mj.
          rw (key-image (λ (j : CalculationJob). j.dataset_version_id) cj fj m.job_versions j)
            (c.job_owned j mj)

  move-Compatible : Compatible (update_rows cj fj js) (update_rows ca fa ats)
  move-Compatible j' a' mj' ma' =
      each-update (λ j. a'.job_id ≡ j.id → compatible j.status a'.status ≡ true) cj fj js
        (λ j mj.
          each-update
            (λ a. a.job_id ≡ (image cj fj j).id → compatible (image cj fj j).status a.status ≡ true)
            ca fa ats (λ a ma e. row_statuses j a mj ma (owner-image a j e)) a' ma')
        j' mj'

  move-ActiveInBuilding : ActiveInBuilding vs (update_rows cj fj js) (update_rows ca fa ats)
  move-ActiveInBuilding v j' a' mv mj' ma' =
      each-update
        (λ j.
          j.dataset_version_id ≡ v.id
          → a'.job_id ≡ j.id
          → is_active_attempt a'.status ≡ true
          → v.status ≡ building)
        cj fj js
        (λ j mj.
          each-update
            (λ a.
              (image cj fj j).dataset_version_id ≡ v.id
              → a.job_id ≡ (image cj fj j).id
              → is_active_attempt a.status ≡ true
              → v.status ≡ building)
            ca fa ats
            (λ a ma ev ej act.
              c.active_in_building v j a mv mj ma (version-image j v ev) (owner-image a j ej)
                (image_active a act))
            a' ma')
        j' mj'

  move-ValidatedSucceeded : ValidatedSucceeded vs (update_rows cj fj js)
  move-ValidatedSucceeded v j' mv =
      each-update
        (λ j. j.dataset_version_id ≡ v.id → is_validated v.status ≡ true → j.status ≡ succeeded) cj
        fj js (λ j mj e h. row_validated v j mv mj (version-image j v e) h) j'

  -- The tables stay consistent.
  pub move-Consistent : Consistent vs (update_rows cj fj js) (update_rows ca fa ats)
  move-Consistent = record {
    version_ids = c.version_ids;
    job_ids = Unique-update (λ j. j.id) cj fj js m.job_keys c.job_ids;
    attempt_ids = Unique-update (λ a. a.id) ca fa ats m.attempt_keys c.attempt_ids;
    one_active =
        UniqueOn-update (λ a. is_active_attempt a.status) (λ a. a.job_id) ca fa ats m.attempt_jobs
          image_active c.one_active;
    attempt_owned = move-AttemptOwned;
    job_owned = move-JobOwned;
    statuses = move-Compatible;
    active_in_building = move-ActiveInBuilding;
    validated_succeeded = move-ValidatedSucceeded;
  }
