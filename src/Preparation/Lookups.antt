-- ===== src/Preparation/Lookups.antt =====
-- What the rows are that the queries of a preparation lock and return.
use cost_engine_orchestratio.Base.{
  String, ◌≡◌, some, Memᴰ, ◌==◌, nat_eq, string_eq, option_eq, eq_of_==, find_row,
}
use cost_engine_orchestratio.Base.Rows.{find_row-mem}
use cost_engine_orchestratio.Store.Status.{
  dataset_status_eq, job_status_eq, attempt_status_eq, definition_status_eq,
}
use cost_engine_orchestratio.Store.Tables.{DatasetVersion, CalculationJob}
use cost_engine_orchestratio.Store.Transaction.{Env}
use cost_engine_orchestratio.Base.Query.{>>=-eq-some}
use cost_engine_orchestratio.Preparation.Types.{LockedSelectedJob}
use cost_engine_orchestratio.Preparation.Repository.{
  lock_output_dataset_version, lock_selected_calculation_job,
}

-- The job that `lock_selected_calculation_job` read.
pub record SelectedRows (id : String) (s : Env) (l : LockedSelectedJob) : Type 0 where
  pub job : CalculationJob
  pub job_in : Memᴰ job s.db.jobs
  pub read_id : l.id ≡ job.id
  pub read_status : l.status ≡ job.status
  pub read_version : l.dataset_version_id ≡ job.dataset_version_id

pub lock_selected_calculation_job-SelectedRows :
    (id : String) (s : Env) (l : LockedSelectedJob)
    → lock_selected_calculation_job id s ≡ some l
    → SelectedRows id s l
unfolding lock_selected_calculation_job
lock_selected_calculation_job-SelectedRows id s l h =
    let (j, ej, h1) = >>=-eq-some (find_row (λ j. j.id == id) s.db.jobs) _ h in
    let (t, et, h2) = >>=-eq-some (find_row (λ t. t.id == j.calculation_type_id) s.db.types) _ h1 in
    let (mj, ij) = find_row-mem (λ j. j.id == id) s.db.jobs ej in
    record { job = j; job_in = mj; read_id = cc; read_status = cc; read_version = cc }

pub lock_output_dataset_version-mem :
    (id : String) (s : Env) {v : DatasetVersion}
    → lock_output_dataset_version id s ≡ some v
    → Memᴰ v s.db.versions × (v.id ≡ id)
unfolding lock_output_dataset_version
lock_output_dataset_version-mem id s h =
    let (m, e) = find_row-mem (λ v. v.id == id) s.db.versions h in (m, eq_of_== e)
