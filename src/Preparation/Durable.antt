-- ===== src/Preparation/Durable.antt =====
-- modules/calculation-job-preparation.service.ts: what a preparation answers, beside what the tables
-- hold.
use cost_engine_orchestratio.Base.{
  String, ◌≡◌, refl, ◌&&◌, Option, none, some, Memᴰ, ◌==◌, nat_eq, string_eq, option_eq, eq_of_==,
  and-true,
}
use cost_engine_orchestratio.Base.Rows.{find_row-mem}
use cost_engine_orchestratio.Exec.Commits.{
  Returns, Commits, pure-Commits, bind-Commits, gets-Commits, or_throw-Commits, require-Commits,
  modify_last,
}
use cost_engine_orchestratio.Store.Status.{
  prepared, dataset_status_eq, job_status_eq, attempt_status_eq, definition_status_eq,
  is_active_attempt,
}
use cost_engine_orchestratio.Store.Tables.{ExecutionAttempt}
use cost_engine_orchestratio.Store.Transaction.{Env}
use cost_engine_orchestratio.Store.Updates.{insert_attempt}
use cost_engine_orchestratio.Preparation.Types.{
  CalculationRunContext, LockedSelectedJob, PreparedCalculationRun,
}
use cost_engine_orchestratio.Preparation.Repository.{
  find_active_execution_attempt, allocate_next_attempt_number, insert_prepared_execution_attempt,
}
use cost_engine_orchestratio.Preparation.Service.{
  dag_run_id, prepare_new_attempt, reuse_prepared_attempt, prepare_selected_job_attempt,
  prepare_calculation_job_run, prepare_calculation_job_run_service,
}
use cost_engine_orchestratio.Consistency.Keeps.{uuid-Commits}
use cost_engine_orchestratio.Base.Rows.{find_row-mem, mem-append_last}
use cost_engine_orchestratio.Exec.Commits.{anything-Commits}
use cost_engine_orchestratio.Store.Rollback.{with_transaction-Returns}

-- The attempt that is answered is in the tables as it is answered, and PREPARED.
pub record Prepared (p : PreparedCalculationRun) (t : Env) : Type 0 where
  pub row : ExecutionAttempt
  pub row_in : Memᴰ row t.db.attempts
  pub has_id : row.id ≡ p.execution_attempt_id
  pub has_job : row.job_id ≡ p.job_id
  pub has_number : row.attempt_number ≡ p.attempt_number
  pub has_dag : row.airflow_dag_id ≡ p.airflow_dag_id
  pub has_run : row.airflow_dag_run_id ≡ p.airflow_dag_run_id
  pub in_prepared : row.status ≡ prepared

insert_attempt-in :
    (a : ExecutionAttempt) (s : Env) → Commits (λ _ t. Memᴰ a t.db.attempts) (insert_attempt a) s
unfolding insert_attempt
insert_attempt-in a s = gets-Commits _ _ (
    require-Commits _ _ λ _. require-Commits _ _ λ _.
      require-Commits _ _
        λ _. require-Commits _ _ λ _. modify_last _ (mem-append_last s.db.attempts a))

prepare_new_attempt-Prepared :
    (version_id snapshot_id : String) (l : LockedSelectedJob) (s : Env)
    → Commits Prepared (prepare_new_attempt version_id snapshot_id l) s
unfolding prepare_new_attempt insert_prepared_execution_attempt
prepare_new_attempt-Prepared version_id snapshot_id l s = gets-Commits _ _ (
    uuid-Commits _ (
      bind-Commits _ _ (insert_attempt-in _ _) λ _ t m. pure-Commits _ (record {
        row = record {
          id = s.uuids 0;
          job_id = l.id;
          attempt_number = allocate_next_attempt_number l.id s;
          status = prepared;
          airflow_dag_id = l.airflow_dag_id;
          airflow_dag_run_id = dag_run_id (s.uuids 0);
          dispatch_started_at = none;
          accepted_at = none;
          finished_at = none;
          last_dispatch_error = none;
        };
        row_in = m;
        has_id = refl;
        has_job = refl;
        has_number = refl;
        has_dag = refl;
        has_run = refl;
        in_prepared = refl;
      })))

reuse_prepared_attempt-Prepared :
    (c : CalculationRunContext) (snapshot_id : String) (l : LockedSelectedJob)
    (a : ExecutionAttempt) (s : Env)
    → Memᴰ a s.db.attempts
    → a.job_id ≡ l.id
    → Commits Prepared (reuse_prepared_attempt c snapshot_id l a) s
unfolding reuse_prepared_attempt
reuse_prepared_attempt-Prepared c snapshot_id l a s m e = require-Commits _ _ λ h.
    pure-Commits _ (record {
      row = a;
      row_in = m;
      has_id = refl;
      has_job = e;
      has_number = refl;
      has_dag = refl;
      has_run = refl;
      in_prepared = eq_of_== ⦃e = attempt_status_eq⦄ h;
    })

find_active_execution_attempt-mem :
    (job_id : String) (s : Env) {a : ExecutionAttempt}
    → find_active_execution_attempt job_id s ≡ some a
    → Memᴰ a s.db.attempts × (a.job_id ≡ job_id)
unfolding find_active_execution_attempt
find_active_execution_attempt-mem job_id s h =
    let (m, e) =
      find_row-mem (λ a. a.job_id == job_id && is_active_attempt a.status) s.db.attempts h in
    (m, eq_of_== (and-true e).0)

prepare_selected_job_attempt-Prepared :
    (c : CalculationRunContext) (snapshot_id : String) (s : Env)
    → Commits Prepared (prepare_selected_job_attempt c snapshot_id) s
unfolding prepare_selected_job_attempt
prepare_selected_job_attempt-Prepared c snapshot_id s = gets-Commits _ _ (
    or_throw-Commits _ _ λ l _. require-Commits _ _ λ _.
      require-Commits _ _
        λ _. gets-Commits _ _ (by_active l (find_active_execution_attempt l.id s) refl))
  where
    by_active :
        (l : LockedSelectedJob) (active : Option ExecutionAttempt)
        → find_active_execution_attempt l.id s ≡ active
        → Commits Prepared
            (elim active [
              | some attempt ↦ reuse_prepared_attempt c snapshot_id l attempt
              | none ↦ prepare_new_attempt c.dataset_version_id snapshot_id l
            ])
            s
    by_active l none found = prepare_new_attempt-Prepared c.dataset_version_id snapshot_id l s
    by_active l (some a) found =
        let (m, e) = find_active_execution_attempt-mem l.id s found in
        reuse_prepared_attempt-Prepared c snapshot_id l a s m e

-- Whenever the preparation of a run returns, the attempt that it answers with is in the tables with
-- the job, number and run identity that it answers, and is PREPARED.
pub prepare_calculation_job_run_service-Prepared :
    (job_id : String) (s : Env) → Returns Prepared (prepare_calculation_job_run_service job_id s)
unfolding prepare_calculation_job_run_service prepare_calculation_job_run
prepare_calculation_job_run_service-Prepared job_id s = with_transaction-Returns _ s (
    gets-Commits _ _ (
      or_throw-Commits _ _ λ c _. bind-Commits _ _ (anything-Commits _) λ _ _ _.
        bind-Commits _ _ (anything-Commits _)
          λ snapshot_id t _. prepare_selected_job_attempt-Prepared c snapshot_id t))
