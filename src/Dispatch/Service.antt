-- ===== src/Dispatch/Service.antt =====
-- The transactions of modules/calculation-job-run.service.ts: routing a job to its active attempt,
-- beginning a dispatch, and recording the executor's answer.
use cost_engine_orchestratio.Base.{
  String, Bool, true, false, not, ◌||◌, Option, none, some, List, [], ◌∷◌, if◌then◌else◌, ◌==◌,
  ◌/=◌, nat_eq, string_eq, option_eq, select,
}
use cost_engine_orchestratio.Errors.{
  calculation_job_not_found, job_not_runnable, calculation_state_invariant, attempt_routing_race,
}
use cost_engine_orchestratio.Exec.{pure, throw, gets, or_throw, require, ◌>>=◌, ◌>>◌}
use cost_engine_orchestratio.Store.Status.{
  building, JobStatus, pending, running, succeeded, failed, prepared, dispatching, accepted,
  dataset_status_eq, job_status_eq, attempt_status_eq, definition_status_eq,
}
use cost_engine_orchestratio.Store.Tables.{ExecutionAttempt}
use cost_engine_orchestratio.Store.Transaction.{Action, with_transaction}
use cost_engine_orchestratio.Preparation.Types.{LockedSelectedJob, PreparedCalculationRun}
use cost_engine_orchestratio.Preparation.Repository.{
  lock_output_dataset_version, read_dataset_freeze_state, lock_selected_calculation_job,
  find_active_execution_attempt,
}
use cost_engine_orchestratio.Preparation.Service.{
  invariant, only_snapshot, prepare_new_attempt, prepare_calculation_job_run_service,
}
use cost_engine_orchestratio.Dispatch.Types.{
  FrozenDependency, RunDispatchOutcome, outcome_accepted, RoutingState, DispatchContext,
  DurableRunAttempt, RunResult, BeginDispatchResult, dispatch, already_accepted,
}
use cost_engine_orchestratio.Dispatch.Repository.{
  load_run_routing_state, lock_dispatch_context, lock_active_execution_attempt,
  read_dataset_build_snapshot_ids, find_required_domains_for_definition,
  find_frozen_snapshot_dependencies, is_dispatchable, mark_execution_attempt_dispatching,
}

-- `throw new CalculationStateInvariantError`
abbrev pub broken : {A : Type 0} → Action A
broken = throw calculation_state_invariant

abbrev pub some_resolved : Option String → Bool
some_resolved none = false
some_resolved (some _) = true

unfoldable pub require_frozen_routing_state : RoutingState → Action String
require_frozen_routing_state state = do
  invariant (state.dataset_status == building)
  snapshot_id ← or_throw (only_snapshot state.snapshot_ids) calculation_state_invariant
  invariant (some_resolved state.resolved_definition_id)
  pure snapshot_id

unfoldable pub durable_attempt_from_routing_state : RoutingState → Action DurableRunAttempt
durable_attempt_from_routing_state state = do
  active ← or_throw state.active_attempt calculation_state_invariant
  snapshot_id ← require_frozen_routing_state state
  pure (record {
    dataset_version_id = state.dataset_version_id;
    dataset_build_snapshot_id = snapshot_id;
    job_id = state.job_id;
    job_status = state.job_status;
    execution_attempt_id = active.id;
    attempt_number = active.attempt_number;
    attempt_status = active.status;
    airflow_dag_id = active.airflow_dag_id;
    airflow_dag_run_id = active.airflow_dag_run_id;
  })

abbrev pub from_prepared : JobStatus → PreparedCalculationRun → DurableRunAttempt
from_prepared status p = record {
  dataset_version_id = p.dataset_version_id;
  dataset_build_snapshot_id = p.dataset_build_snapshot_id;
  job_id = p.job_id;
  job_status = status;
  execution_attempt_id = p.execution_attempt_id;
  attempt_number = p.attempt_number;
  attempt_status = prepared;
  airflow_dag_id = p.airflow_dag_id;
  airflow_dag_run_id = p.airflow_dag_run_id;
}

unfoldable pub reuse_retry_attempt :
    RoutingState → String → LockedSelectedJob → ExecutionAttempt → Action DurableRunAttempt
reuse_retry_attempt state snapshot_id job attempt = do
  invariant (attempt.status == prepared || attempt.status == dispatching)
  pure (record {
    dataset_version_id = state.dataset_version_id;
    dataset_build_snapshot_id = snapshot_id;
    job_id = job.id;
    job_status = failed;
    execution_attempt_id = attempt.id;
    attempt_number = attempt.attempt_number;
    attempt_status = attempt.status;
    airflow_dag_id = attempt.airflow_dag_id;
    airflow_dag_run_id = attempt.airflow_dag_run_id;
  })

unfoldable pub retry_transaction : RoutingState → Action DurableRunAttempt
retry_transaction state = do
  found_dataset ← gets (lock_output_dataset_version state.dataset_version_id)
  dataset ← or_throw found_dataset calculation_state_invariant
  require (dataset.status == building) (job_not_runnable state.job_id)
  freeze_state ← gets (read_dataset_freeze_state state.dataset_version_id)
  snapshot_id ← or_throw (only_snapshot freeze_state.snapshot_ids) calculation_state_invariant
  invariant (not (freeze_state.job_count == 0))
  invariant (freeze_state.resolved_job_count == freeze_state.job_count)
  found_job ← gets (lock_selected_calculation_job state.job_id)
  job ← or_throw found_job calculation_state_invariant
  invariant (job.dataset_version_id == state.dataset_version_id)
  require (job.status == failed) attempt_routing_race
  invariant (some_resolved job.resolved_definition_id)
  active ← gets (find_active_execution_attempt job.id)
  elim active [
    | some attempt ↦ reuse_retry_attempt state snapshot_id job attempt
    | none ↦ do
      new ← prepare_new_attempt state.dataset_version_id snapshot_id job
      pure (from_prepared failed new)
  ]

unfoldable pub prepare_failed_calculation_job_retry : RoutingState → Action DurableRunAttempt
prepare_failed_calculation_job_retry state = with_transaction (retry_transaction state)

-- `state.activeAttempt` has a status, and it is ACCEPTED
abbrev pub is_accepted : Option ExecutionAttempt → Bool
is_accepted none = false
is_accepted (some a) = a.status == accepted

unfoldable pub route_pending :
    String → RoutingState → Option ExecutionAttempt → Action DurableRunAttempt
route_pending job_id state (some a) = do
  invariant (a.status /= accepted)
  durable_attempt_from_routing_state state
route_pending job_id state none = do
  new ← prepare_calculation_job_run_service job_id
  pure (from_prepared pending new)

unfoldable pub route_failed : RoutingState → Option ExecutionAttempt → Action DurableRunAttempt
route_failed state (some a) = do
  invariant (a.status /= accepted)
  durable_attempt_from_routing_state state
route_failed state none = prepare_failed_calculation_job_retry state

unfoldable pub route : String → RoutingState → JobStatus → Action DurableRunAttempt
route job_id state succeeded = throw (job_not_runnable job_id)
route job_id state running = do
  invariant (is_accepted state.active_attempt)
  durable_attempt_from_routing_state state
route job_id state pending = route_pending job_id state state.active_attempt
route job_id state failed = do
  require (state.dataset_status == building) (job_not_runnable job_id)
  route_failed state state.active_attempt

unfoldable pub obtain_durable_run_attempt : String → Action DurableRunAttempt
obtain_durable_run_attempt job_id = do
  found ← gets (load_run_routing_state job_id)
  state ← or_throw found (calculation_job_not_found job_id)
  route job_id state state.job_status

-- The only dependency of the snapshot in a domain.
abbrev pub only_dependency : List FrozenDependency → Option FrozenDependency
only_dependency (d ∷ []) = some d
only_dependency _ = none

unfoldable pub select_relevant_frozen_dependencies :
    List String → List FrozenDependency → Action (List FrozenDependency)
select_relevant_frozen_dependencies [] frozen = pure []
select_relevant_frozen_dependencies (domain ∷ domains) frozen = do
  d ←
      or_throw (only_dependency (select (λ d. d.domain == domain) frozen))
        calculation_state_invariant
  rest ← select_relevant_frozen_dependencies domains frozen
  pure (d ∷ rest)

unfoldable pub accepted_result : DurableRunAttempt → RunDispatchOutcome → RunResult
accepted_result a outcome = record {
  dataset_version_id = a.dataset_version_id;
  dataset_status = building;
  dataset_build_snapshot_id = a.dataset_build_snapshot_id;
  job_id = a.job_id;
  job_status = running;
  execution_attempt_id = a.execution_attempt_id;
  attempt_number = a.attempt_number;
  attempt_status = accepted;
  airflow_dag_id = a.airflow_dag_id;
  airflow_dag_run_id = a.airflow_dag_run_id;
  dispatch_outcome = outcome;
}

-- a PREPARED attempt becomes DISPATCHING; a DISPATCHING one is dispatched again as it is
unfoldable pub ensure_dispatching : ExecutionAttempt → Action (Unit {0})
ensure_dispatching a =
    if a.status == prepared
    then (do transitioned ← mark_execution_attempt_dispatching a.id; invariant transitioned)
    else pure tt

unfoldable pub dispatch_active :
    DispatchContext → String → String → ExecutionAttempt → Action BeginDispatchResult
dispatch_active context snapshot_id definition_id active = do
  invariant (is_dispatchable context.job_status)
  ensure_dispatching active
  required ← gets (find_required_domains_for_definition definition_id)
  frozen ← gets (find_frozen_snapshot_dependencies snapshot_id)
  upstream ← select_relevant_frozen_dependencies required frozen
  pure (
      dispatch (record {
        execution_attempt_id = active.id;
        attempt_number = active.attempt_number;
        job_id = context.job_id;
        dataset_version_id = context.dataset_version_id;
        dataset_build_snapshot_id = snapshot_id;
        calculation_type_id = context.calculation_type_id;
        calculation_type_code = context.calculation_type_code;
        resolved_definition_id = definition_id;
        airflow_dag_id = active.airflow_dag_id;
        airflow_dag_run_id = active.airflow_dag_run_id;
        upstream_dataset_versions = upstream;
      }))

unfoldable pub already_accepted_result :
    DispatchContext → DurableRunAttempt → ExecutionAttempt → Action BeginDispatchResult
already_accepted_result context durable active = do
  invariant (context.job_status == running)
  pure (
      already_accepted (
        accepted_result
          (record durable {
            job_status = context.job_status;
            attempt_number = active.attempt_number;
            attempt_status = active.status;
            airflow_dag_id = active.airflow_dag_id;
            airflow_dag_run_id = active.airflow_dag_run_id;
          })
          outcome_accepted))

unfoldable pub begin_dispatch_transaction : DurableRunAttempt → Action BeginDispatchResult
begin_dispatch_transaction durable = do
  found ← gets (lock_dispatch_context durable.job_id)
  context ← or_throw found calculation_state_invariant
  invariant (context.dataset_status == building)
  snapshot_ids ← gets (read_dataset_build_snapshot_ids context.dataset_version_id)
  snapshot_id ← or_throw (only_snapshot snapshot_ids) calculation_state_invariant
  definition_id ← or_throw context.resolved_definition_id calculation_state_invariant
  invariant (snapshot_id == durable.dataset_build_snapshot_id)
  found_active ← gets (lock_active_execution_attempt context.job_id)
  active ← or_throw found_active attempt_routing_race
  require (active.id == durable.execution_attempt_id) attempt_routing_race
  if active.status == accepted
      then already_accepted_result context durable active
      else dispatch_active context snapshot_id definition_id active

unfoldable pub begin_dispatch : DurableRunAttempt → Action BeginDispatchResult
begin_dispatch durable = with_transaction (begin_dispatch_transaction durable)
