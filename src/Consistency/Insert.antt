-- ===== src/Consistency/Insert.antt =====
-- A new attempt of a job that has no active one, in a dataset version that is BUILDING.
use cost_engine_orchestratio.Base.{
  String, ◌≡◌, sym, ap, subst, ◌∙◌, inl, inr, true, false, ◌&&◌, List, [], ◌∷◌, ◌++◌, Memᴰ, ◌==◌,
  nat_eq, string_eq, option_eq, ==-refl, any_row,
}
use cost_engine_orchestratio.Base.Rows.{mem-append_cases, mem-single, mem-any_row}
use cost_engine_orchestratio.Store.Status.{
  building, dataset_status_eq, job_status_eq, attempt_status_eq, definition_status_eq,
  is_active_attempt,
}
use cost_engine_orchestratio.Store.Tables.{DatasetVersion, CalculationJob, ExecutionAttempt}
use cost_engine_orchestratio.Base.Unique.{UniqueOn-append, Unique-append}
use cost_engine_orchestratio.Consistency.Invariant.{
  compatible, AttemptOwned, Compatible, ActiveInBuilding, Consistent,
}

module _ {vs : List DatasetVersion} {js : List CalculationJob} {ats : List ExecutionAttempt}
    (c : Consistent vs js ats) {j0 : CalculationJob} {v0 : DatasetVersion} (a : ExecutionAttempt)
    (mj : Memᴰ j0 js) (mv : Memᴰ v0 vs) (owner : a.job_id ≡ j0.id)
    (belongs : j0.dataset_version_id ≡ v0.id) (in_building : v0.status ≡ building)
    (new_id : any_row (λ b. b.id == a.id) ats ≡ false)
    (no_active : any_row (λ b. b.job_id == a.job_id && is_active_attempt b.status) ats ≡ false)
    (fits : compatible j0.status a.status ≡ true) where
  insert-AttemptOwned : AttemptOwned js (ats ++ a ∷ [])
  insert-AttemptOwned b m = elim (mem-append_cases ats m) [
    | inl old ↦ c.attempt_owned b old
    | inr new ↦
        let e = mem-single new in
        mem-any_row (λ j. j.id == b.job_id) js mj
          (subst (λ (x : String). (j0.id == x) ≡ true)
            (sym (ap (λ (b : ExecutionAttempt). b.job_id) e ∙ owner)) (==-refl j0.id))
  ]

  insert-Compatible : Compatible js (ats ++ a ∷ [])
  insert-Compatible j b nj m e = elim (mem-append_cases ats m) [
    | inl old ↦ c.statuses j b nj old e
    | inr new ↦
        let eb = mem-single new in
        let ej =
          c.job_ids j j0 nj mj (sym e ∙ ap (λ (b : ExecutionAttempt). b.job_id) eb ∙ owner) in
        rw (ej, eb) fits
  ]

  insert-ActiveInBuilding : ActiveInBuilding vs js (ats ++ a ∷ [])
  insert-ActiveInBuilding v j b nv nj m ev e h = elim (mem-append_cases ats m) [
    | inl old ↦ c.active_in_building v j b nv nj old ev e h
    | inr new ↦
        let eb = mem-single new in
        let ej =
          c.job_ids j j0 nj mj (sym e ∙ ap (λ (b : ExecutionAttempt). b.job_id) eb ∙ owner) in
        let w =
          c.version_ids v v0 nv mv
            (sym ev ∙ ap (λ (j : CalculationJob). j.dataset_version_id) ej ∙ belongs) in
        ap (λ (v : DatasetVersion). v.status) w ∙ in_building
  ]

  pub insert-Consistent : Consistent vs js (ats ++ a ∷ [])
  insert-Consistent = record {
    version_ids = c.version_ids;
    job_ids = c.job_ids;
    attempt_ids = Unique-append (λ b. b.id) ats a new_id c.attempt_ids;
    one_active =
        UniqueOn-append (λ b. is_active_attempt b.status) (λ b. b.job_id) ats a (λ _. no_active)
          c.one_active;
    attempt_owned = insert-AttemptOwned;
    job_owned = c.job_owned;
    statuses = insert-Compatible;
    active_in_building = insert-ActiveInBuilding;
    validated_succeeded = c.validated_succeeded;
  }
