-- ===== src/Dispatch/Lookups.antt =====
-- What the rows are that the queries of a dispatch lock and return.
use cost_engine_orchestratio.Base.{
  String, ◌≡◌, sym, true, ◌&&◌, some, Memᴰ, ◌==◌, nat_eq, string_eq, option_eq, eq_of_==, and-true,
  find_row,
}
use cost_engine_orchestratio.Base.Rows.{find_row-mem}
use cost_engine_orchestratio.Store.Status.{
  dataset_status_eq, job_status_eq, attempt_status_eq, definition_status_eq, is_active_attempt,
}
use cost_engine_orchestratio.Store.Tables.{DatasetVersion, CalculationJob, ExecutionAttempt}
use cost_engine_orchestratio.Store.Transaction.{Env}
use cost_engine_orchestratio.Base.Query.{>>=-eq-some}
use cost_engine_orchestratio.Dispatch.Types.{DispatchContext}
use cost_engine_orchestratio.Dispatch.Repository.{
  lock_dispatch_context, lock_active_execution_attempt, lock_execution_attempt,
}

-- The job and the version that a dispatch context was read from.
pub record ContextRows (id : String) (s : Env) (c : DispatchContext) : Type 0 where
  pub job : CalculationJob
  pub dataset : DatasetVersion
  pub job_in : Memᴰ job s.db.jobs
  pub dataset_in : Memᴰ dataset s.db.versions
  pub asked : job.id ≡ id
  pub belongs : job.dataset_version_id ≡ dataset.id
  pub read_id : c.job_id ≡ job.id
  pub read_status : c.job_status ≡ job.status
  pub read_version : c.dataset_version_id ≡ job.dataset_version_id
  pub read_dataset_status : c.dataset_status ≡ dataset.status

pub lock_dispatch_context-ContextRows :
    (id : String) (s : Env) (c : DispatchContext)
    → lock_dispatch_context id s ≡ some c
    → ContextRows id s c
unfolding lock_dispatch_context
lock_dispatch_context-ContextRows id s c h =
    let (j, ej, h1) = >>=-eq-some (find_row (λ j. j.id == id) s.db.jobs) _ h in
    let (v, ev, h2) =
      >>=-eq-some (find_row (λ v. v.id == j.dataset_version_id) s.db.versions) _ h1 in
    let (t, et, h3) = >>=-eq-some (find_row (λ t. t.id == j.calculation_type_id) s.db.types) _ h2 in
    let (mj, ij) = find_row-mem (λ j. j.id == id) s.db.jobs ej in
    let (mv, iv) = find_row-mem (λ v. v.id == j.dataset_version_id) s.db.versions ev in
    record {
      job = j;
      dataset = v;
      job_in = mj;
      dataset_in = mv;
      asked = eq_of_== ij;
      belongs = sym (eq_of_== iv);
      read_id = cc;
      read_status = cc;
      read_version = cc;
      read_dataset_status = cc;
    }

pub lock_execution_attempt-mem :
    (id : String) (s : Env) {a : ExecutionAttempt}
    → lock_execution_attempt id s ≡ some a
    → Memᴰ a s.db.attempts × (a.id ≡ id)
unfolding lock_execution_attempt
lock_execution_attempt-mem id s h =
    let (m, e) = find_row-mem (λ a. a.id == id) s.db.attempts h in (m, eq_of_== e)

pub lock_active_execution_attempt-mem :
    (job_id : String) (s : Env) {a : ExecutionAttempt}
    → lock_active_execution_attempt job_id s ≡ some a
    → Memᴰ a s.db.attempts × (a.job_id ≡ job_id) × (is_active_attempt a.status ≡ true)
unfolding lock_active_execution_attempt
lock_active_execution_attempt-mem job_id s h =
    let (m, e) =
      find_row-mem (λ a. a.job_id == job_id && is_active_attempt a.status) s.db.attempts h in
    (m, eq_of_== (and-true e).0, (and-true e).1)
