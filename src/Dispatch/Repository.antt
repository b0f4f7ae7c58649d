-- ===== src/Dispatch/Repository.antt =====
-- The queries and updates of modules/calculation-job-run.repository.ts, one definition for each.
use cost_engine_orchestratio.Base.{
  ℕ, String, Bool, ◌&&◌, ◌||◌, Option, none, some, List, [], ◌∷◌, map, leb, if◌then◌else◌, ◌==◌,
  ◌/=◌, nat_eq, string_eq, option_eq, select, find_row, sort_by,
}
use cost_engine_orchestratio.Store.Status.{
  DatasetStatus, JobStatus, pending, running, failed, AttemptStatus, prepared, dispatching,
  accepted, dispatch_failed, dataset_status_eq, job_status_eq, attempt_status_eq,
  definition_status_eq, is_active_attempt,
}
use cost_engine_orchestratio.Store.Tables.{
  DatasetSeries, DatasetVersion, SnapshotDependency, ExecutionAttempt,
}
use cost_engine_orchestratio.Store.Transaction.{Env, Action}
use cost_engine_orchestratio.Store.Updates.{update_attempts, update_jobs}
use cost_engine_orchestratio.Base.Query.{◌>>=◌}
use cost_engine_orchestratio.Dispatch.Types.{RoutingState, DispatchContext, FrozenDependency}

abbrev snapshot_ids_of : String → Env → List String
snapshot_ids_of version_id s =
    map (λ r. r.id) (select (λ r. r.dataset_version_id == version_id) s.db.snapshots)

unfoldable pub load_run_routing_state : String → Env → Option RoutingState
load_run_routing_state job_id s = do
  j ← find_row (λ j. j.id == job_id) s.db.jobs
  v ← find_row (λ v. v.id == j.dataset_version_id) s.db.versions
  some (record {
    job_id = j.id;
    job_status = j.status;
    dataset_version_id = j.dataset_version_id;
    dataset_status = v.status;
    resolved_definition_id = j.resolved_definition_id;
    snapshot_ids = snapshot_ids_of v.id s;
    active_attempt = find_row (λ a. a.job_id == j.id && is_active_attempt a.status) s.db.attempts;
  })

unfoldable pub lock_dispatch_context : String → Env → Option DispatchContext
lock_dispatch_context job_id s = do
  j ← find_row (λ j. j.id == job_id) s.db.jobs
  v ← find_row (λ v. v.id == j.dataset_version_id) s.db.versions
  t ← find_row (λ t. t.id == j.calculation_type_id) s.db.types
  some (record {
    job_id = j.id;
    job_status = j.status;
    dataset_version_id = j.dataset_version_id;
    dataset_status = v.status;
    calculation_type_id = j.calculation_type_id;
    calculation_type_code = t.code;
    resolved_definition_id = j.resolved_definition_id;
  })

unfoldable pub lock_active_execution_attempt : String → Env → Option ExecutionAttempt
lock_active_execution_attempt job_id s =
    find_row (λ a. a.job_id == job_id && is_active_attempt a.status) s.db.attempts

unfoldable pub lock_execution_attempt : String → Env → Option ExecutionAttempt
lock_execution_attempt attempt_id s = find_row (λ a. a.id == attempt_id) s.db.attempts

-- The ids are in the table's order: every caller wants there to be one.
unfoldable pub read_dataset_build_snapshot_ids : String → Env → List String
read_dataset_build_snapshot_ids version_id s = snapshot_ids_of version_id s

unfoldable pub read_dataset_version_status : String → Env → Option DatasetStatus
read_dataset_version_status version_id s = do
  v ← find_row (λ v. v.id == version_id) s.db.versions
  some v.status

unfoldable pub find_required_domains_for_definition : String → Env → List String
find_required_domains_for_definition definition_id s = sort_by s.collation (
    map (λ r. r.required_domain)
      (select (λ r. r.definition_id == definition_id) s.db.definition_dependencies))

-- JOIN dataset_series, JOIN dataset_versions
join_frozen :
    List DatasetSeries → List DatasetVersion → SnapshotDependency → Option FrozenDependency
join_frozen series versions r = do
  ds ← find_row (λ d. d.id == r.series_id) series
  v ← find_row (λ v. v.series_id == r.series_id && v.id == r.dataset_version_id) versions
  some (record {
    domain = ds.domain;
    company_code = ds.company_code;
    fiscal_year = ds.fiscal_year;
    period = ds.period;
    series_id = r.series_id;
    dataset_version_id = r.dataset_version_id;
    version = v.version;
  })

join_frozen_all :
    List DatasetSeries → List DatasetVersion → List SnapshotDependency → List FrozenDependency
join_frozen_all series versions [] = []
join_frozen_all series versions (r ∷ rs) = elim (join_frozen series versions r) [
  | none ↦ join_frozen_all series versions rs
  | some d ↦ d ∷ join_frozen_all series versions rs
]

-- ORDER BY ds.domain, ds.company_code, ds.fiscal_year, ds.period
by_series : (String → String → Bool) → FrozenDependency → FrozenDependency → Bool
by_series le a b =
    if a.domain /= b.domain
    then le a.domain b.domain
    else if a.company_code /= b.company_code
    then le a.company_code b.company_code
    else if a.fiscal_year /= b.fiscal_year
    then leb a.fiscal_year b.fiscal_year
    else le a.period b.period

unfoldable pub find_frozen_snapshot_dependencies : String → Env → List FrozenDependency
unfolding join_frozen join_frozen_all by_series
find_frozen_snapshot_dependencies snapshot_id s = sort_by (by_series s.collation) (
    join_frozen_all s.db.series s.db.versions
      (select (λ r. r.snapshot_id == snapshot_id) s.db.snapshot_dependencies))

abbrev pub has_status : String → AttemptStatus → ExecutionAttempt → Bool
has_status id status a = a.id == id && a.status == status

unfoldable pub mark_execution_attempt_dispatching : String → Action Bool
mark_execution_attempt_dispatching id = update_attempts (has_status id prepared) (λ now a.
    record a { status = dispatching; dispatch_started_at = some now; last_dispatch_error = none })

unfoldable pub mark_execution_attempt_accepted : String → Action Bool
mark_execution_attempt_accepted id =
    update_attempts (has_status id dispatching)
      (λ now a. record a { status = accepted; accepted_at = some now; last_dispatch_error = none })

-- COALESCE(column, NOW())
abbrev pub coalesce : Option ℕ → ℕ → Option ℕ
coalesce none now = some now
coalesce (some t) now = some t

-- status IN ('PENDING', 'FAILED')
abbrev pub is_dispatchable : JobStatus → Bool
is_dispatchable status = status == pending || status == failed

unfoldable pub mark_calculation_job_running : String → Action Bool
mark_calculation_job_running id =
    update_jobs (λ j. j.id == id && is_dispatchable j.status)
      (λ now j. record j { status = running; started_at = coalesce j.started_at now })

unfoldable pub mark_execution_attempt_dispatch_failed : String → String → Action Bool
mark_execution_attempt_dispatch_failed id message =
    update_attempts (has_status id dispatching) (λ now a. record a {
      status = dispatch_failed;
      finished_at = some now;
      last_dispatch_error = some message;
    })

unfoldable pub record_unknown_dispatch_diagnostic : String → String → Action Bool
record_unknown_dispatch_diagnostic id message =
    update_attempts (has_status id dispatching)
      (λ now a. record a { last_dispatch_error = some message })
