-- ===== src/Consistency/Create.antt =====
-- A new dataset version, and a new job of a dataset version.
use cost_engine_orchestratio.Base.{
  String, ◌≡◌, sym, ap, subst, ◌∙◌, ◌≢◌, inl, inr, true, false, List, [], ◌∷◌, ◌++◌, Memᴰ, ◌==◌,
  nat_eq, string_eq, option_eq, ==-refl, any_row,
}
use cost_engine_orchestratio.Base.Rows.{mem-append_cases, mem-single, mem-any_row}
use cost_engine_orchestratio.Store.Status.{
  DatasetStatus, draft, dataset_status_eq, job_status_eq, attempt_status_eq, definition_status_eq,
}
use cost_engine_orchestratio.Store.Tables.{DatasetVersion, CalculationJob, ExecutionAttempt}
use cost_engine_orchestratio.Base.Unique.{Unique-append}
use cost_engine_orchestratio.Consistency.Invariant.{is_validated, Consistent}
use cost_engine_orchestratio.Base.Rows.{any_row-append}

module _ {vs : List DatasetVersion} {js : List CalculationJob} {ats : List ExecutionAttempt}
    (c : Consistent vs js ats) where
  -- no job refers to a version whose id is new
  no_job_of :
      (id : String) (j : CalculationJob)
      → any_row (λ v. v.id == id) vs ≡ false
      → Memᴰ j js
      → j.dataset_version_id ≢ id
  no_job_of id j new_id mj e =
      let owned = subst (λ (x : String). any_row (λ v. v.id == x) vs ≡ true) e (c.job_owned j mj) in
      cc

  no_attempt_of :
      (id : String) (a : ExecutionAttempt)
      → any_row (λ j. j.id == id) js ≡ false
      → Memᴰ a ats
      → a.job_id ≢ id
  no_attempt_of id a new_id ma e =
      let owned =
        subst (λ (x : String). any_row (λ j. j.id == x) js ≡ true) e (c.attempt_owned a ma) in
      cc

  -- A version with a new id, which no job refers to yet.
  pub create_version-Consistent :
      (v : DatasetVersion)
      → any_row (λ w. w.id == v.id) vs ≡ false
      → Consistent (vs ++ v ∷ []) js ats
  create_version-Consistent v new_id = record {
    version_ids = Unique-append (λ w. w.id) vs v new_id c.version_ids;
    job_ids = c.job_ids;
    attempt_ids = c.attempt_ids;
    one_active = c.one_active;
    attempt_owned = c.attempt_owned;
    job_owned = λ j mj. any_row-append _ vs v (c.job_owned j mj);
    statuses = c.statuses;
    active_in_building = λ w j a mw mj ma e o h. elim (mem-append_cases vs mw) [
      | inl old ↦ c.active_in_building w j a old mj ma e o h
      | inr new ↦
          absurd
            (no_job_of v.id j new_id mj (e ∙ ap (λ (v : DatasetVersion). v.id) (mem-single new)))
    ];
    validated_succeeded = λ w j mw mj e h. elim (mem-append_cases vs mw) [
      | inl old ↦ c.validated_succeeded w j old mj e h
      | inr new ↦
          absurd
            (no_job_of v.id j new_id mj (e ∙ ap (λ (v : DatasetVersion). v.id) (mem-single new)))
    ];
  }

  -- A PENDING job with a new id, of a version whose status is DRAFT.
  pub create_job-Consistent :
      {v0 : DatasetVersion} (j0 : CalculationJob)
      → Memᴰ v0 vs
      → j0.dataset_version_id ≡ v0.id
      → v0.status ≡ draft
      → any_row (λ j. j.id == j0.id) js ≡ false
      → Consistent vs (js ++ j0 ∷ []) ats
  create_job-Consistent {v0} j0 mv belongs at_draft new_id = record {
    version_ids = c.version_ids;
    job_ids = Unique-append (λ j. j.id) js j0 new_id c.job_ids;
    attempt_ids = c.attempt_ids;
    one_active = c.one_active;
    attempt_owned = λ a ma. any_row-append _ js j0 (c.attempt_owned a ma);
    job_owned = λ j mj. elim (mem-append_cases js mj) [
      | inl old ↦ c.job_owned j old
      | inr new ↦
          mem-any_row (λ v. v.id == j.dataset_version_id) vs mv
            (subst (λ (x : String). (v0.id == x) ≡ true)
              (sym (ap (λ (j : CalculationJob). j.dataset_version_id) (mem-single new) ∙ belongs))
              (==-refl v0.id))
    ];
    statuses = λ j a mj ma e. elim (mem-append_cases js mj) [
      | inl old ↦ c.statuses j a old ma e
      | inr new ↦
          absurd (
            no_attempt_of j0.id a new_id ma
              (e ∙ ap (λ (j : CalculationJob). j.id) (mem-single new)))
    ];
    active_in_building = λ v j a mv' mj ma e o h. elim (mem-append_cases js mj) [
      | inl old ↦ c.active_in_building v j a mv' old ma e o h
      | inr new ↦
          absurd (
            no_attempt_of j0.id a new_id ma
              (o ∙ ap (λ (j : CalculationJob). j.id) (mem-single new)))
    ];
    validated_succeeded = λ v j mv' mj e h. elim (mem-append_cases js mj) [
      | inl old ↦ c.validated_succeeded v j mv' old e h
      | inr new ↦
          let w : v ≡ v0 = c.version_ids v v0 mv' mv (
            sym e ∙ ap (λ (j : CalculationJob). j.dataset_version_id) (mem-single new) ∙ belongs) in
          let h' : is_validated draft ≡ true =
            subst (λ (u : DatasetStatus). is_validated u ≡ true)
              (ap (λ (v : DatasetVersion). v.status) w ∙ at_draft) h in
          cc
    ];
  }
