-- ===== src/Examples/Data.antt =====
-- A run of the services on a small database: one calculation type with a published definition that
-- depends on no other domain.
use cost_engine_orchestratio.Base.{
  ℕ, zero, suc, String, true, [], ◌∷◌, nat_eq, string_eq, option_eq,
}
use cost_engine_orchestratio.Exec.{pure}
use cost_engine_orchestratio.Store.Status.{
  building, pending, running, prepared, accepted, definition_published, dataset_status_eq,
  job_status_eq, attempt_status_eq, definition_status_eq,
}
use cost_engine_orchestratio.Store.Transaction.{commit_confirmed, Env}
use cost_engine_orchestratio.Dispatch.Run.{Executor}
use cost_engine_orchestratio.Lifecycle.Service.{
  publish, submit_dataset_validation_service, decide_validated_dataset,
}
use cost_engine_orchestratio.Creation.Service.{CreateInput, create_dataset_version_service}
use cost_engine_orchestratio.Preparation.Service.{prepare_calculation_job_run_service}
use cost_engine_orchestratio.Dispatch.Types.{
  DispatchCommand, dispatch_accepted, DurableRunAttempt, run_succeeded,
}
use cost_engine_orchestratio.Dispatch.Service.{begin_dispatch}
use cost_engine_orchestratio.Dispatch.Recording.{record_dispatch_outcome}
use cost_engine_orchestratio.Reconciliation.Repository.{AttemptContext, success}
use cost_engine_orchestratio.Reconciliation.Service.{apply_reconciliation, terminal}
use cost_engine_orchestratio.Dispatch.Types.{run_succeeded}
use Prim.Native.String.{◌++◌ as ◌++ₛ◌}
use cost_engine_orchestratio.Store.Status.{definition_published}

abbrev identifier : ℕ → String
identifier zero = "u"
identifier (suc n) = identifier n ++ₛ "'"

abbrev pub start_env : Env
start_env = record {
  db = record {
    series = [];
    versions = [];
    types =
        record {
          id = "t1";
          domain = "SALES";
          code = "MARGIN";
          is_active = true;
          airflow_dag_id = "dag_margin";
        }
        ∷ [];
    definitions =
        record { id = "d1"; calculation_type_id = "t1"; version = 1; status = definition_published }
        ∷ [];
    definition_dependencies = [];
    jobs = [];
    snapshots = [];
    snapshot_dependencies = [];
    attempts = [];
  };
  now = 100;
  uuids = identifier;
  collation = λ a b. true;
  commits = λ before after. commit_confirmed;
}

abbrev pub create_input : CreateInput
create_input = record { domain = "SALES"; company_code = "C1"; fiscal_year = 2026; period = "01" }

abbrev pub created_env : Env
created_env = (create_dataset_version_service create_input start_env).1

abbrev pub job_1 : String
job_1 = "u''"

abbrev pub prepared_env : Env
prepared_env = (prepare_calculation_job_run_service job_1 created_env).1

-- the attempt that the preparation made
abbrev pub attempt_1 : String
attempt_1 = "u''''"

abbrev pub durable_1 : DurableRunAttempt
durable_1 = record {
  dataset_version_id = "u'";
  dataset_build_snapshot_id = "u'''";
  job_id = job_1;
  job_status = pending;
  execution_attempt_id = attempt_1;
  attempt_number = 1;
  attempt_status = prepared;
  airflow_dag_id = "dag_margin";
  airflow_dag_run_id = "cost-engine-u''''";
}

abbrev pub dispatching_env : Env
dispatching_env = (begin_dispatch durable_1 prepared_env).1

abbrev pub command_1 : DispatchCommand
command_1 = record {
  execution_attempt_id = attempt_1;
  attempt_number = 1;
  job_id = job_1;
  dataset_version_id = "u'";
  dataset_build_snapshot_id = "u'''";
  calculation_type_id = "t1";
  calculation_type_code = "MARGIN";
  resolved_definition_id = "d1";
  airflow_dag_id = "dag_margin";
  airflow_dag_run_id = "cost-engine-u''''";
  upstream_dataset_versions = [];
}

abbrev pub running_env : Env
running_env = (record_dispatch_outcome command_1 dispatch_accepted dispatching_env).1

abbrev pub context_1 : AttemptContext
context_1 = record {
  execution_attempt_id = attempt_1;
  job_id = job_1;
  job_status = running;
  dataset_version_id = "u'";
  dataset_status = building;
  attempt_number = 1;
  attempt_status = accepted;
  airflow_dag_id = "dag_margin";
  airflow_dag_run_id = "cost-engine-u''''";
}

abbrev pub succeeded_env : Env
succeeded_env = (apply_reconciliation context_1 (terminal success) running_env).1

abbrev pub validating_env : Env
validating_env = (submit_dataset_validation_service "u'" succeeded_env).1

abbrev pub published_env : Env
published_env = (decide_validated_dataset "u'" publish validating_env).1

-- An executor that accepts each dispatch, and reports that each run has succeeded.
abbrev pub accepting_executor : Executor (Unit {0})
accepting_executor = record {
  dispatch_run = λ c. pure dispatch_accepted;
  get_execution_status = λ i. pure run_succeeded;
}
