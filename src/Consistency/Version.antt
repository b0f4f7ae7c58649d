-- ===== src/Consistency/Version.antt =====
-- A dataset version takes another status.
use cost_engine_orchestratio.Base.{
  ◌≡◌, refl, ap, subst, ◌∙◌, ◌≢◌, ◌⊎◌, inl, inr, Bool, true, false, List, Memᴰ, if◌then◌else◌,
  Bool-cases, nat_eq, string_eq, option_eq, update_rows,
}
use cost_engine_orchestratio.Store.Status.{
  DatasetStatus, draft, building, validating, published, rejected, abandoned, succeeded,
  dataset_status_eq, job_status_eq, attempt_status_eq, definition_status_eq, is_active_attempt,
}
use cost_engine_orchestratio.Store.Tables.{DatasetVersion, CalculationJob, ExecutionAttempt}
use cost_engine_orchestratio.Base.Unique.{
  image, key-image, Unique-update, any_row-key-update, each-update,
}
use cost_engine_orchestratio.Consistency.Invariant.{is_validated, Consistent}

-- The version `v0` is the row that an update changes, to a status that its jobs allow.
pub record VersionMove (vs : List DatasetVersion) (js : List CalculationJob)
    (ats : List ExecutionAttempt) (v0 : DatasetVersion) (cv : DatasetVersion → Bool)
    (fv : DatasetVersion → DatasetVersion) : Type 0 where
  pub version_in : Memᴰ v0 vs
  pub only : (v : DatasetVersion) → cv v ≡ true → v.id ≡ v0.id
  pub keys : (v : DatasetVersion) → (fv v).id ≡ v.id
  pub idle :
      (fv v0).status ≢ building
      → (j : CalculationJob) (a : ExecutionAttempt) → Memᴰ j js
      → Memᴰ a ats
      → j.dataset_version_id ≡ v0.id
      → a.job_id ≡ j.id
      → is_active_attempt a.status ≡ false
  pub succeeded_jobs :
      is_validated (fv v0).status ≡ true
      → (j : CalculationJob) → Memᴰ j js
      → j.dataset_version_id ≡ v0.id
      → j.status ≡ succeeded

building-cases : (t : DatasetStatus) → (t ≡ building) ⊎ (t ≢ building)
building-cases building = inl refl
building-cases draft = inr (λ e. cc)
building-cases validating = inr (λ e. cc)
building-cases published = inr (λ e. cc)
building-cases rejected = inr (λ e. cc)
building-cases abandoned = inr (λ e. cc)

module _ {vs : List DatasetVersion} {js : List CalculationJob} {ats : List ExecutionAttempt}
    {v0 : DatasetVersion} {cv : DatasetVersion → Bool} {fv : DatasetVersion → DatasetVersion}
    (c : Consistent vs js ats) (m : VersionMove vs js ats v0 cv fv) where
  hit_version : (v : DatasetVersion) → Memᴰ v vs → cv v ≡ true → v ≡ v0
  hit_version v mv h = c.version_ids v v0 mv m.version_in (m.only v h)

  key-of : (v : DatasetVersion) → (image cv fv v).id ≡ v.id
  key-of = key-image (λ (v : DatasetVersion). v.id) cv fv m.keys

  row_building :
      (v : DatasetVersion) (j : CalculationJob) (a : ExecutionAttempt)
      → Memᴰ v vs
      → Memᴰ j js
      → Memᴰ a ats
      → j.dataset_version_id ≡ v.id
      → a.job_id ≡ j.id
      → is_active_attempt a.status ≡ true
      → (image cv fv v).status ≡ building
  row_building v j a mv mj ma ev ej h = elim (Bool-cases (cv v)) [
    | inr miss ↦ rw miss (c.active_in_building v j a mv mj ma ev ej h)
    | inl hit ↦
        let e = hit_version v mv hit in
        elim (building-cases (fv v0).status) [
          | inl b ↦ rw hit (ap (λ (v : DatasetVersion). (fv v).status) e ∙ b)
          | inr n ↦ let i = m.idle n j a mj ma (ev ∙ ap (λ (v : DatasetVersion). v.id) e) ej in cc
        ]
  ]

  row_succeeded :
      (v : DatasetVersion) (j : CalculationJob)
      → Memᴰ v vs
      → Memᴰ j js
      → j.dataset_version_id ≡ v.id
      → is_validated (image cv fv v).status ≡ true
      → j.status ≡ succeeded
  row_succeeded v j mv mj ev h = elim (Bool-cases (cv v)) [
    | inr miss ↦
        c.validated_succeeded v j mv mj ev
          (subst (λ (b : Bool). is_validated (if b then fv v else v).status ≡ true) miss h)
    | inl hit ↦
        let e = hit_version v mv hit in
        let h' = subst (λ (b : Bool). is_validated (if b then fv v else v).status ≡ true) hit h in
        m.succeeded_jobs (subst (λ (v : DatasetVersion). is_validated (fv v).status ≡ true) e h') j
          mj (ev ∙ ap (λ (v : DatasetVersion). v.id) e)
  ]

  -- The tables stay consistent.
  pub version-Consistent : Consistent (update_rows cv fv vs) js ats
  version-Consistent = record {
    version_ids = Unique-update (λ v. v.id) cv fv vs m.keys c.version_ids;
    job_ids = c.job_ids;
    attempt_ids = c.attempt_ids;
    one_active = c.one_active;
    attempt_owned = c.attempt_owned;
    job_owned = λ j mj.
        any_row-key-update (λ v. v.id) j.dataset_version_id cv fv vs m.keys (c.job_owned j mj);
    statuses = c.statuses;
    active_in_building = λ v' j a mv' mj ma.
        each-update
          (λ v'.
            j.dataset_version_id ≡ v'.id
            → a.job_id ≡ j.id
            → is_active_attempt a.status ≡ true
            → v'.status ≡ building)
          cv fv vs (λ v mv ev ej h. row_building v j a mv mj ma (ev ∙ key-of v) ej h) v' mv';
    validated_succeeded = λ v' j mv' mj.
        each-update
          (λ v'.
            j.dataset_version_id ≡ v'.id → is_validated v'.status ≡ true → j.status ≡ succeeded)
          cv fv vs (λ v mv ev h. row_succeeded v j mv mj (ev ∙ key-of v) h) v' mv';
  }
