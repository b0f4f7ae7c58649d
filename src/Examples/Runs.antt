-- ===== src/Examples/Runs.antt =====
-- The services run on the data of Examples/Data.antt.
use cost_engine_orchestratio.Base.{
  ◌≡◌, refl, Bool, true, false, none, some, Memᴰ, nat_eq, string_eq, option_eq, select, find_row,
  find_last, any_row, all_rows, update_rows, count_rows, max_of, latest, sort_by, distinct,
}
use cost_engine_orchestratio.Errors.{active_dataset_version_exists, calculation_type_not_configured}
use cost_engine_orchestratio.Exec.{
  Result, ok, err, pure, throw, gets, or_throw, modify, require, ◌>>=◌, try_catch,
}
use cost_engine_orchestratio.Store.Status.{
  published, succeeded, attempt_succeeded, dataset_status_eq, job_status_eq, attempt_status_eq,
  definition_status_eq,
}
use cost_engine_orchestratio.Store.Tables.{DatasetVersion, CalculationJob, ExecutionAttempt}
use cost_engine_orchestratio.Store.Transaction.{with_transaction, random_uuid}
use cost_engine_orchestratio.Store.Updates.{
  update_attempts, update_jobs, update_versions, insert_attempt, insert_snapshot,
  insert_snapshot_dependency, insert_series_if_absent, insert_version, insert_job, update_series,
}
use cost_engine_orchestratio.Dispatch.Run.{run_rounds, run_calculation_job_service}
use cost_engine_orchestratio.Lifecycle.Service.{
  publish, submit_dataset_validation_service, decide_validated_dataset,
  abandon_dataset_version_service,
}
use cost_engine_orchestratio.Creation.Service.{CreateInput, create_dataset_version_service}
use cost_engine_orchestratio.Preparation.Repository.{
  load_calculation_run_context, lock_calculation_type, find_latest_published_definitions,
  find_required_domains, lock_upstream_dataset_series, find_latest_published_upstream_version,
  lock_output_dataset_version, read_dataset_freeze_state, persist_resolved_definition,
  transition_dataset_version_to_building, lock_selected_calculation_job,
  find_active_execution_attempt, allocate_next_attempt_number, insert_prepared_execution_attempt,
}
use cost_engine_orchestratio.Preparation.Service.{
  validate_immutable_context, require_building_snapshot, freeze_jobs, freeze_dependencies,
  freeze_draft_build, lock_types, initialize_or_reuse_draft_dataset, reuse_building_dataset,
  prepare_new_attempt, reuse_prepared_attempt, prepare_selected_job_attempt, obtain_snapshot,
  prepare_calculation_job_run, prepare_calculation_job_run_service,
}
use cost_engine_orchestratio.Reconciliation.Repository.{has_newer_execution_attempt}
use cost_engine_orchestratio.Dispatch.Types.{dispatch_accepted}
use cost_engine_orchestratio.Dispatch.Repository.{
  load_run_routing_state, lock_dispatch_context, lock_active_execution_attempt,
  lock_execution_attempt, read_dataset_build_snapshot_ids, read_dataset_version_status,
  find_required_domains_for_definition, find_frozen_snapshot_dependencies,
  mark_execution_attempt_dispatching, mark_execution_attempt_accepted, mark_calculation_job_running,
  mark_execution_attempt_dispatch_failed, record_unknown_dispatch_diagnostic,
}
use cost_engine_orchestratio.Dispatch.Service.{
  accepted_result, obtain_durable_run_attempt, begin_dispatch, ensure_dispatching, dispatch_active,
  begin_dispatch_transaction, already_accepted_result, select_relevant_frozen_dependencies,
}
use cost_engine_orchestratio.Dispatch.Recording.{
  late_outcome, confirm_dispatch, reject_dispatch, note_unknown_dispatch, record_by_outcome,
  open_outcome, record_outcome_transaction, record_dispatch_outcome,
}
use cost_engine_orchestratio.Dispatch.Service.{
  require_frozen_routing_state, durable_attempt_from_routing_state, reuse_retry_attempt,
  retry_transaction, prepare_failed_calculation_job_retry, route_pending, route_failed, route,
}
use cost_engine_orchestratio.Errors.{calculation_type_not_configured, active_dataset_version_exists}
use cost_engine_orchestratio.Examples.Data.{
  start_env, create_input, created_env, job_1, prepared_env, attempt_1, durable_1, dispatching_env,
  command_1, succeeded_env, validating_env, published_env, accepting_executor,
}
use cost_engine_orchestratio.Errors.{status_code}
use cost_engine_orchestratio.Reconciliation.Service.{
  result_from_durable_state, confirm_terminal, terminalize, recover_dispatching, finish_accepted,
  apply_to_open, reconciliation_transaction, apply_reconciliation,
  select_attempt_for_reconciliation, lookup_executor_status, reconcile_execution_attempt_service,
  reconcile_calculation_job_service, reconcile_execution_by_identity_service,
}
use cost_engine_orchestratio.Reconciliation.Repository.{
  find_manual_selection, find_attempt_id_by_identity, load_attempt_context, lock_reconciliation_job,
  transition_dispatching_attempt_to_accepted, transition_attempt_to_terminal,
  transition_job_to_running, transition_job_to_terminal,
}
use cost_engine_orchestratio.Dispatch.Run.{
  on_env, unknown_dispatch_result, finish_round, after_begin, run_round,
}
use cost_engine_orchestratio.Creation.Service.{
  find_series, find_or_create_and_lock_series, find_active_dataset_version,
  allocate_next_dataset_version, insert_draft_dataset_version, find_active_calculation_types,
  insert_pending_calculation_jobs, job_inserts, create_transaction, translate_violation,
}
use cost_engine_orchestratio.Lifecycle.Service.{
  read_dataset_series_id, lock_lifecycle_series, lock_lifecycle_dataset, lock_lifecycle_jobs,
  lock_lifecycle_attempts, transition_lifecycle_dataset, apply_transition, submit_building,
  submit_validation_transaction, lock_terminal_decision_dataset, decide_transaction,
  publish_dataset_version_service, reject_dataset_version_service, abandon_open,
  abandon_transaction,
}
use cost_engine_orchestratio.Preparation.Service.{
  missing_definition_codes, lock_series, find_versions,
}
use cost_engine_orchestratio.Preparation.Repository.{join_types}

abbrev pub is_ok : {A : Type 0} → Result A → Bool
is_ok (ok a) = true
is_ok (err e) = false

abbrev pub version_1 : DatasetVersion
version_1 = record {
  id = "u'";
  series_id = "u";
  version = 1;
  status = published;
  building_started_at = some 100;
  validating_at = some 100;
  published_at = some 100;
  rejected_at = none;
  abandoned_at = none;
}

abbrev pub finished_job : CalculationJob
finished_job = record {
  id = job_1;
  dataset_version_id = "u'";
  calculation_type_id = "t1";
  status = succeeded;
  resolved_definition_id = some "d1";
  started_at = some 100;
  finished_at = some 100;
}

abbrev pub finished_attempt : ExecutionAttempt
finished_attempt = record {
  id = attempt_1;
  job_id = job_1;
  attempt_number = 1;
  status = attempt_succeeded;
  airflow_dag_id = "dag_margin";
  airflow_dag_run_id = "cost-engine-u''''";
  dispatch_started_at = some 100;
  accepted_at = some 100;
  finished_at = some 100;
  last_dispatch_error = none;
}

abbrev pub capex_input : CreateInput
capex_input = record { domain = "CAPEX"; company_code = "C1"; fiscal_year = 2026; period = "01" }

-- The example's version goes from its creation to its publication, each command of the example
-- returns, and a series without calculation types and a second active version are refused.
pub example_runs :
    Memᴰ version_1 published_env.db.versions
    × Memᴰ finished_job published_env.db.jobs
    × Memᴰ finished_attempt published_env.db.attempts
    × (find_latest_published_upstream_version "u" published_env ≡ some version_1)
    × ((with_transaction (create_transaction capex_input) start_env).0
        ≡ err calculation_type_not_configured)
    × ((create_dataset_version_service create_input created_env).0
        ≡ err active_dataset_version_exists)
    × (is_ok (prepare_calculation_job_run_service job_1 created_env).0 ≡ true)
    × (is_ok (begin_dispatch durable_1 prepared_env).0 ≡ true)
    × (is_ok (record_dispatch_outcome command_1 dispatch_accepted dispatching_env).0 ≡ true)
    × (is_ok (submit_dataset_validation_service "u'" succeeded_env).0 ≡ true)
    × (is_ok (decide_validated_dataset "u'" publish validating_env).0 ≡ true)
    × (is_ok (abandon_dataset_version_service "u'" created_env).0 ≡ true)
    × (is_ok (run_calculation_job_service accepting_executor job_1 (created_env, tt)).0 ≡ true)
    × (lock_execution_attempt attempt_1 published_env ≡ some finished_attempt)
unfolding status_code pure throw gets or_throw modify require ◌>>=◌ try_catch
    result_from_durable_state confirm_terminal terminalize recover_dispatching finish_accepted
    apply_to_open reconciliation_transaction apply_reconciliation select_attempt_for_reconciliation
    lookup_executor_status reconcile_execution_attempt_service reconcile_calculation_job_service
    reconcile_execution_by_identity_service find_manual_selection find_attempt_id_by_identity
    load_attempt_context lock_reconciliation_job has_newer_execution_attempt
    transition_dispatching_attempt_to_accepted transition_attempt_to_terminal
    transition_job_to_running transition_job_to_terminal update_attempts update_jobs update_versions
    insert_attempt insert_snapshot insert_snapshot_dependency insert_series_if_absent insert_version
    insert_job update_series with_transaction random_uuid select find_row find_last any_row all_rows
    update_rows count_rows max_of latest sort_by distinct require_frozen_routing_state
    durable_attempt_from_routing_state reuse_retry_attempt retry_transaction
    prepare_failed_calculation_job_retry route_pending route_failed route obtain_durable_run_attempt
    select_relevant_frozen_dependencies accepted_result ensure_dispatching dispatch_active
    already_accepted_result begin_dispatch_transaction begin_dispatch late_outcome confirm_dispatch
    reject_dispatch note_unknown_dispatch record_by_outcome open_outcome record_outcome_transaction
    record_dispatch_outcome load_run_routing_state lock_dispatch_context
    lock_active_execution_attempt lock_execution_attempt read_dataset_build_snapshot_ids
    read_dataset_version_status find_required_domains_for_definition
    find_frozen_snapshot_dependencies mark_execution_attempt_dispatching
    mark_execution_attempt_accepted mark_calculation_job_running
    mark_execution_attempt_dispatch_failed record_unknown_dispatch_diagnostic on_env
    unknown_dispatch_result finish_round after_begin run_round run_rounds
    run_calculation_job_service find_series find_or_create_and_lock_series
    find_active_dataset_version allocate_next_dataset_version insert_draft_dataset_version
    find_active_calculation_types insert_pending_calculation_jobs job_inserts create_transaction
    translate_violation create_dataset_version_service read_dataset_series_id lock_lifecycle_series
    lock_lifecycle_dataset lock_lifecycle_jobs lock_lifecycle_attempts transition_lifecycle_dataset
    apply_transition submit_building submit_validation_transaction submit_dataset_validation_service
    lock_terminal_decision_dataset decide_transaction decide_validated_dataset
    publish_dataset_version_service reject_dataset_version_service abandon_open abandon_transaction
    abandon_dataset_version_service validate_immutable_context require_building_snapshot freeze_jobs
    freeze_dependencies freeze_draft_build lock_types missing_definition_codes lock_series
    find_versions initialize_or_reuse_draft_dataset reuse_building_dataset prepare_new_attempt
    reuse_prepared_attempt prepare_selected_job_attempt obtain_snapshot prepare_calculation_job_run
    prepare_calculation_job_run_service join_types load_calculation_run_context
    lock_calculation_type find_latest_published_definitions find_required_domains
    lock_upstream_dataset_series find_latest_published_upstream_version lock_output_dataset_version
    read_dataset_freeze_state persist_resolved_definition transition_dataset_version_to_building
    lock_selected_calculation_job find_active_execution_attempt allocate_next_attempt_number
    insert_prepared_execution_attempt
example_runs = (
  Memᴰ.head refl,
  Memᴰ.head refl,
  Memᴰ.head refl,
  refl,
  refl,
  refl,
  refl,
  refl,
  refl,
  refl,
  refl,
  refl,
  refl,
  refl,
)
