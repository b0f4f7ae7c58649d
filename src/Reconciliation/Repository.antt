-- ===== src/Reconciliation/Repository.antt =====
-- The queries and updates of modules/calculation-job-reconciliation.repository.ts.
use cost_engine_orchestratio.Base.{
  ℕ, String, Bool, ◌&&◌, ◌||◌, Option, none, some, ltb, ◌==◌, nat_eq, string_eq, option_eq, select,
  find_row, any_row, latest,
}
use cost_engine_orchestratio.Store.Status.{
  DatasetStatus, JobStatus, running, succeeded, failed, AttemptStatus, dispatching, accepted,
  attempt_succeeded, attempt_failed, dataset_status_eq, job_status_eq, attempt_status_eq,
  definition_status_eq, is_terminal_attempt,
}
use cost_engine_orchestratio.Store.Transaction.{Env, Action}
use cost_engine_orchestratio.Store.Updates.{update_attempts, update_jobs}
use cost_engine_orchestratio.Base.Query.{◌>>=◌}
use cost_engine_orchestratio.Dispatch.Types.{ExecutionIdentity}
use cost_engine_orchestratio.Dispatch.Repository.{coalesce, has_status, is_dispatchable}

pub record AttemptContext : Type 0 where
  pub execution_attempt_id : String
  pub job_id : String
  pub job_status : JobStatus
  pub dataset_version_id : String
  pub dataset_status : DatasetStatus
  pub attempt_number : ℕ
  pub attempt_status : AttemptStatus
  pub airflow_dag_id : String
  pub airflow_dag_run_id : String

pub record ManualSelection : Type 0 where
  pub job_status : JobStatus
  pub active_attempt_id : Option String
  pub latest_terminal_attempt_id : Option String

pub record LockedJob : Type 0 where
  pub job_id : String
  pub job_status : JobStatus
  pub dataset_version_id : String
  pub dataset_status : DatasetStatus

-- ORDER BY ea.attempt_number DESC LIMIT 1, of the attempts of a job with a status that passes `test`
abbrev latest_attempt_id : String → (AttemptStatus → Bool) → Env → Option String
latest_attempt_id job_id test s = do
  a ←
      latest (λ a. a.attempt_number)
        (select (λ a. a.job_id == job_id && test a.status) s.db.attempts)
  some a.id

unfoldable pub find_manual_selection : String → Env → Option ManualSelection
find_manual_selection job_id s = do
  j ← find_row (λ j. j.id == job_id) s.db.jobs
  some (record {
    job_status = j.status;
    active_attempt_id = latest_attempt_id j.id (λ t. t == dispatching || t == accepted) s;
    latest_terminal_attempt_id = latest_attempt_id j.id is_terminal_attempt s;
  })

unfoldable pub find_attempt_id_by_identity : ExecutionIdentity → Env → Option String
find_attempt_id_by_identity identity s = do
  a ←
      find_row
        (λ a.
          a.airflow_dag_id == identity.airflow_dag_id
          && a.airflow_dag_run_id == identity.airflow_dag_run_id)
        s.db.attempts
  some a.id

unfoldable pub load_attempt_context : String → Env → Option AttemptContext
load_attempt_context attempt_id s = do
  a ← find_row (λ a. a.id == attempt_id) s.db.attempts
  j ← find_row (λ j. j.id == a.job_id) s.db.jobs
  v ← find_row (λ v. v.id == j.dataset_version_id) s.db.versions
  some (record {
    execution_attempt_id = a.id;
    job_id = j.id;
    job_status = j.status;
    dataset_version_id = v.id;
    dataset_status = v.status;
    attempt_number = a.attempt_number;
    attempt_status = a.status;
    airflow_dag_id = a.airflow_dag_id;
    airflow_dag_run_id = a.airflow_dag_run_id;
  })

unfoldable pub lock_reconciliation_job : String → Env → Option LockedJob
lock_reconciliation_job job_id s = do
  j ← find_row (λ j. j.id == job_id) s.db.jobs
  v ← find_row (λ v. v.id == j.dataset_version_id) s.db.versions
  some (record {
    job_id = j.id;
    job_status = j.status;
    dataset_version_id = v.id;
    dataset_status = v.status;
  })

unfoldable pub has_newer_execution_attempt : String → ℕ → Env → Bool
has_newer_execution_attempt job_id attempt_number s =
    any_row (λ a. a.job_id == job_id && ltb attempt_number a.attempt_number) s.db.attempts

unfoldable pub transition_dispatching_attempt_to_accepted : String → Action Bool
transition_dispatching_attempt_to_accepted id =
    update_attempts (has_status id dispatching) (λ now a. record a {
      status = accepted;
      accepted_at = coalesce a.accepted_at now;
      last_dispatch_error = none;
    })

-- The statuses that an executor's terminal report becomes.
pub data Terminal : Type 0 where
  success failure : Terminal

abbrev pub attempt_status_of : Terminal → AttemptStatus
attempt_status_of success = attempt_succeeded
attempt_status_of failure = attempt_failed

abbrev pub job_status_of : Terminal → JobStatus
job_status_of success = succeeded
job_status_of failure = failed

unfoldable pub transition_attempt_to_terminal :
    (id : String) (expected : AttemptStatus) (target : Terminal) → Action Bool
transition_attempt_to_terminal id expected target =
    update_attempts (has_status id expected) (λ now a. record a {
      status = attempt_status_of target;
      accepted_at = coalesce a.accepted_at now;
      finished_at = some now;
      last_dispatch_error = none;
    })

unfoldable pub transition_job_to_running : String → Action Bool
transition_job_to_running id =
    update_jobs (λ j. j.id == id && is_dispatchable j.status)
      (λ now j. record j { status = running; started_at = coalesce j.started_at now })

unfoldable pub transition_job_to_terminal :
    (id : String) (expected : JobStatus → Bool) (target : Terminal) → Action Bool
transition_job_to_terminal id expected target =
    update_jobs (λ j. j.id == id && expected j.status)
      (λ now j. record j { status = job_status_of target; finished_at = some now })
