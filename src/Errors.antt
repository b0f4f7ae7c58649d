-- ===== src/Errors.antt =====
-- The errors that the services throw (modules/calculation-job.errors.ts and
-- modules/dataset-version/dataset-version.errors.ts). The texts of messages are not modelled; what a
-- message is built from is kept where it is an argument of the error's constructor.
use cost_engine_orchestratio.Base.{String, List, ℕ}

pub data Error : Type 0 where
  invalid_job_id : Error
  calculation_job_not_found : String → Error
  dependency_definition_not_ready : List String → Error
  dependency_not_ready : List String → Error
  job_not_runnable : String → Error
  executor_dispatch_failed : String → Error
  execution_attempt_not_found : String → Error
  execution_not_reconcilable : String → Error
  executor_status_unavailable : Error
  fake_execution_not_found : String → Error
  invalid_dataset_version_request : Error
  invalid_dataset_version_id : Error
  invalid_dataset_domain : Error
  invalid_dataset_period : Error
  active_dataset_version_exists : Error
  calculation_type_not_configured : Error
  dataset_version_not_found : String → Error
  dataset_not_ready_for_validation : Error
  dataset_has_active_execution : Error
  dataset_state_conflict : Error
  -- CalculationStateInvariantError and DatasetStateInvariantError
  calculation_state_invariant : Error
  dataset_state_invariant : Error
  -- the run service's private AttemptRoutingRaceError
  attempt_routing_race : Error
  -- an error of the database: the constraint that a row would violate
  unique_violation : String → Error
  -- a COMMIT without a confirmed answer
  commit_unconfirmed : Error
  -- any other `Error`
  other_error : Error

-- The HTTP status of the errors that carry one; any other error is answered by the framework.
unfoldable pub status_code : Error → ℕ
status_code invalid_job_id = 400
status_code (calculation_job_not_found _) = 404
status_code (dependency_definition_not_ready _) = 409
status_code (dependency_not_ready _) = 409
status_code (job_not_runnable _) = 409
status_code (executor_dispatch_failed _) = 502
status_code (execution_attempt_not_found _) = 404
status_code (execution_not_reconcilable _) = 409
status_code executor_status_unavailable = 503
status_code (fake_execution_not_found _) = 404
status_code invalid_dataset_version_request = 400
status_code invalid_dataset_version_id = 400
status_code invalid_dataset_domain = 400
status_code invalid_dataset_period = 400
status_code active_dataset_version_exists = 409
status_code calculation_type_not_configured = 409
status_code (dataset_version_not_found _) = 404
status_code dataset_not_ready_for_validation = 409
status_code dataset_has_active_execution = 409
status_code dataset_state_conflict = 409
status_code _ = 500
