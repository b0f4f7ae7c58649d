-- ===== src/Consistency/Resolve.antt =====
-- A job row changes in columns that the invariant does not read.
use cost_engine_orchestratio.Base.{
  ◌≡◌, sym, ◌∙◌, Bool, true, List, ◌==◌, nat_eq, string_eq, option_eq, any_row, update_rows,
}
use cost_engine_orchestratio.Store.Status.{
  building, succeeded, dataset_status_eq, job_status_eq, attempt_status_eq, definition_status_eq,
  is_active_attempt,
}
use cost_engine_orchestratio.Store.Tables.{DatasetVersion, CalculationJob, ExecutionAttempt}
use cost_engine_orchestratio.Base.Unique.{
  image, key-image, Unique-update, any_row-key-update, each-update,
}
use cost_engine_orchestratio.Consistency.Invariant.{compatible, is_validated, Consistent}

module _ {vs : List DatasetVersion} {js : List CalculationJob} {ats : List ExecutionAttempt}
    (c : Consistent vs js ats) (cj : CalculationJob → Bool) (fj : CalculationJob → CalculationJob)
    (keys : (j : CalculationJob) → (fj j).id ≡ j.id)
    (versions : (j : CalculationJob) → (fj j).dataset_version_id ≡ j.dataset_version_id)
    (statuses : (j : CalculationJob) → (fj j).status ≡ j.status) where
  key-of : (j : CalculationJob) → (image cj fj j).id ≡ j.id
  key-of = key-image (λ (j : CalculationJob). j.id) cj fj keys

  version-of : (j : CalculationJob) → (image cj fj j).dataset_version_id ≡ j.dataset_version_id
  version-of = key-image (λ (j : CalculationJob). j.dataset_version_id) cj fj versions

  status-of : (j : CalculationJob) → (image cj fj j).status ≡ j.status
  status-of = key-image (λ (j : CalculationJob). j.status) cj fj statuses

  -- The tables stay consistent.
  pub resolve-Consistent : Consistent vs (update_rows cj fj js) ats
  resolve-Consistent = record {
    version_ids = c.version_ids;
    job_ids = Unique-update (λ j. j.id) cj fj js keys c.job_ids;
    attempt_ids = c.attempt_ids;
    one_active = c.one_active;
    attempt_owned =
        λ a ma. any_row-key-update (λ j. j.id) a.job_id cj fj js keys (c.attempt_owned a ma);
    job_owned =
        each-update (λ j. any_row (λ v. v.id == j.dataset_version_id) vs ≡ true) cj fj js
          (λ j mj. rw (version-of j) (c.job_owned j mj));
    statuses = λ j' a mj' ma.
        each-update (λ j'. a.job_id ≡ j'.id → compatible j'.status a.status ≡ true) cj fj js
          (λ j mj e. rw (status-of j) (c.statuses j a mj ma (e ∙ key-of j))) j' mj';
    active_in_building = λ v j' a mv mj' ma.
        each-update
          (λ j'.
            j'.dataset_version_id ≡ v.id
            → a.job_id ≡ j'.id
            → is_active_attempt a.status ≡ true
            → v.status ≡ building)
          cj fj js
          (λ j mj ev ej h.
            c.active_in_building v j a mv mj ma (sym (version-of j) ∙ ev) (ej ∙ key-of j) h)
          j' mj';
    validated_succeeded = λ v j' mv mj'.
        each-update
          (λ j'.
            j'.dataset_version_id ≡ v.id → is_validated v.status ≡ true → j'.status ≡ succeeded)
          cj fj js
          (λ j mj ev h. status-of j ∙ c.validated_succeeded v j mv mj (sym (version-of j) ∙ ev) h)
          j' mj';
  }
