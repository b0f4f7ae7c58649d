-- ===== src/Preparation/Safety.antt =====
-- modules/calculation-job-preparation.service.ts: preparing an attempt and the invariant of the tables.
use cost_engine_orchestratio.Base.{
  String, ◌≡◌, refl, sym, subst, ◌∙◌, true, Option, none, some, Memᴰ, arith, ◌==◌, nat_eq,
  string_eq, option_eq, eq_of_==,
}
use cost_engine_orchestratio.Exec.Commits.{
  pure-Commits, bind-Commits, gets-Commits, or_throw-Commits, require-Commits,
}
use cost_engine_orchestratio.Store.Status.{
  building, JobStatus, pending, prepared, dataset_status_eq, job_status_eq, attempt_status_eq,
  definition_status_eq,
}
use cost_engine_orchestratio.Store.Tables.{DatasetVersion, ExecutionAttempt, Database}
use cost_engine_orchestratio.Store.Transaction.{Env}
use cost_engine_orchestratio.Preparation.Types.{CalculationRunContext, LockedSelectedJob}
use cost_engine_orchestratio.Preparation.Repository.{
  find_active_execution_attempt, insert_prepared_execution_attempt,
}
use cost_engine_orchestratio.Preparation.Service.{
  prepare_new_attempt, reuse_prepared_attempt, prepare_selected_job_attempt,
}
use cost_engine_orchestratio.Consistency.Invariant.{compatible, IsConsistent}
use cost_engine_orchestratio.Consistency.Insert.{insert-Consistent}
use cost_engine_orchestratio.Consistency.Keeps.{Keeps, uuid-Commits, insert_attempt-Commits}
use cost_engine_orchestratio.Preparation.Lookups.{
  SelectedRows, lock_selected_calculation_job-SelectedRows,
}

-- The tables are consistent, and the dataset version is BUILDING.
pub record IsBuilding (version_id : String) (db : Database) : Type 0 where
  pub consistent : IsConsistent db
  pub dataset : DatasetVersion
  pub dataset_in : Memᴰ dataset db.versions
  pub has_id : dataset.id ≡ version_id
  pub in_building : dataset.status ≡ building

-- A new PREPARED attempt for a PENDING or FAILED job of a BUILDING version.
pub prepare_new_attempt-Keeps :
    (version_id snapshot_id : String) (l : LockedSelectedJob) {id : String} {s : Env}
    → IsBuilding version_id s.db
    → (rows : SelectedRows id s l) → l.dataset_version_id ≡ version_id
    → compatible rows.job.status prepared ≡ true
    → Keeps (prepare_new_attempt version_id snapshot_id l) s
unfolding prepare_new_attempt insert_prepared_execution_attempt
prepare_new_attempt-Keeps version_id snapshot_id l b rows same fits = gets-Commits _ _ (
    uuid-Commits _ (
      bind-Commits {P = λ _ t. IsConsistent t.db} _ _
        (insert_attempt-Commits _ _ refl λ new_id no_active.
          insert-Consistent b.consistent _ rows.job_in b.dataset_in rows.read_id
            (sym rows.read_version ∙ same ∙ sym b.has_id) b.in_building new_id no_active fits)
        (λ _ _ k. pure-Commits _ k)))

reuse_prepared_attempt-Keeps :
    (c : CalculationRunContext) (snapshot_id : String) (l : LockedSelectedJob)
    (a : ExecutionAttempt) {s : Env}
    → IsConsistent s.db
    → Keeps (reuse_prepared_attempt c snapshot_id l a) s
unfolding reuse_prepared_attempt
reuse_prepared_attempt-Keeps c snapshot_id l a k = require-Commits _ _ λ _. pure-Commits _ k

pending_fits : (u : JobStatus) → (u == pending) ≡ true → compatible u prepared ≡ true
pending_fits u h = ground arith

pub prepare_selected_job_attempt-Keeps :
    (c : CalculationRunContext) (snapshot_id : String) (s : Env)
    → IsBuilding c.dataset_version_id s.db
    → Keeps (prepare_selected_job_attempt c snapshot_id) s
unfolding prepare_selected_job_attempt
prepare_selected_job_attempt-Keeps c snapshot_id s b = gets-Commits _ _ (
    or_throw-Commits _ _ λ l found.
      let rows = lock_selected_calculation_job-SelectedRows c.selected_job_id s l found in
      require-Commits _ _ λ same. require-Commits _ _ λ is_pending. gets-Commits _ _ (
        by_active l rows (eq_of_== same)
          (pending_fits rows.job.status
            (subst (λ (u : JobStatus). (u == pending) ≡ true) rows.read_status is_pending))
          (find_active_execution_attempt l.id s)))
  where
    by_active :
        (l : LockedSelectedJob) (rows : SelectedRows c.selected_job_id s l)
        → l.dataset_version_id ≡ c.dataset_version_id
        → compatible rows.job.status prepared ≡ true
        → (active : Option ExecutionAttempt)
        → Keeps
            (elim active [
              | some attempt ↦ reuse_prepared_attempt c snapshot_id l attempt
              | none ↦ prepare_new_attempt c.dataset_version_id snapshot_id l
            ])
            s
    by_active l rows same fits (some a) =
        reuse_prepared_attempt-Keeps c snapshot_id l a b.consistent
    by_active l rows same fits none =
        prepare_new_attempt-Keeps c.dataset_version_id snapshot_id l b rows same fits
