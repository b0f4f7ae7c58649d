-- ===== src/Examples/Witnesses.antt =====
-- The theorems of the services, applied to the data of Examples/Data.antt.
use cost_engine_orchestratio.Reconciliation.Service.{apply_reconciliation}
use cost_engine_orchestratio.Dispatch.Types.{already_exists}
use cost_engine_orchestratio.Reconciliation.Terminal.{
  record_dispatch_outcome-terminal, apply_reconciliation-terminal,
}
use cost_engine_orchestratio.Base.{◌<◌, ◌≡◌, refl, [], ◌∷◌, map, Memᴰ, nat_eq, string_eq, option_eq}
use cost_engine_orchestratio.Exec.Commits.{Returns, Commits}
use cost_engine_orchestratio.Store.Status.{
  validating, published, abandoned, dataset_status_eq, job_status_eq, attempt_status_eq,
  definition_status_eq,
}
use cost_engine_orchestratio.Reach.{
  create, prepare, begin, record_answer, reconcile, submit, decide, Reachable, at_start, after_step,
  Reachable-IsConsistent, empty-IsConsistent,
}
use cost_engine_orchestratio.Dispatch.RunHeld.{RunHeld, run_calculation_job_service-RunHeld}
use cost_engine_orchestratio.Preparation.FrozenInputs.{
  Froze, prepare_calculation_job_run_service-Froze,
}
use cost_engine_orchestratio.Reconciliation.Durable.{
  Reconciled, apply_reconciliation-Reconciled, reconcile_execution_attempt_service-Reconciled,
}
use cost_engine_orchestratio.Reconciliation.Service.{reconcile_execution_attempt_service}
use cost_engine_orchestratio.Examples.Data.{running_env, attempt_1}
use cost_engine_orchestratio.Dispatch.Durable.{Answered, record_dispatch_outcome-Answered}
use cost_engine_orchestratio.Dispatch.Opened.{Opened, begin_dispatch-Opened}
use cost_engine_orchestratio.Dispatch.Run.{run_rounds, run_calculation_job_service}
use cost_engine_orchestratio.Dispatch.Routing.{
  NoRace, run_rounds-NoRace, IsOnly, select_relevant-domains,
}
use cost_engine_orchestratio.Preparation.Durable.{
  Prepared, prepare_calculation_job_run_service-Prepared,
}
use cost_engine_orchestratio.Preparation.Numbers.{allocate_next_attempt_number-above}
use cost_engine_orchestratio.Lifecycle.Durable.{
  Reached, submit_dataset_validation_service-Reached, decide_validated_dataset-Reached,
  abandon_dataset_version_service-Reached,
}
use cost_engine_orchestratio.Lifecycle.Service.{
  publish, submit_dataset_validation_service, decide_validated_dataset,
  abandon_dataset_version_service,
}
use cost_engine_orchestratio.Consistency.Invariant.{IsConsistent}
use cost_engine_orchestratio.Preparation.Repository.{allocate_next_attempt_number}
use cost_engine_orchestratio.Preparation.Service.{prepare_calculation_job_run_service}
use cost_engine_orchestratio.Dispatch.Types.{FrozenDependency, dispatch_accepted}
use cost_engine_orchestratio.Dispatch.Service.{begin_dispatch, select_relevant_frozen_dependencies}
use cost_engine_orchestratio.Dispatch.Recording.{record_dispatch_outcome}
use cost_engine_orchestratio.Reconciliation.Repository.{success}
use cost_engine_orchestratio.Reconciliation.Service.{terminal}
use cost_engine_orchestratio.Examples.Data.{
  start_env, create_input, created_env, job_1, prepared_env, durable_1, dispatching_env, command_1,
  context_1, succeeded_env, validating_env, published_env, accepting_executor,
}
use cost_engine_orchestratio.Examples.Runs.{finished_attempt, example_runs}

empty_start : IsConsistent start_env.db
empty_start = empty-IsConsistent start_env.db refl refl refl

published_reached : Reachable start_env published_env
published_reached =
    after_step
      (after_step
        (after_step
          (after_step
            (after_step (after_step (after_step at_start (create create_input)) (prepare job_1))
              (begin durable_1))
            (record_answer command_1 dispatch_accepted))
          (reconcile context_1 (terminal success)))
        (submit "u'"))
      (decide "u'" publish)

Reachable-IsConsistent_example : IsConsistent published_env.db
Reachable-IsConsistent_example = Reachable-IsConsistent published_reached empty_start

prepare_calculation_job_run_service-Froze_example :
    Returns (Froze created_env) (prepare_calculation_job_run_service job_1 created_env)
prepare_calculation_job_run_service-Froze_example =
    prepare_calculation_job_run_service-Froze created_env job_1

run_calculation_job_service-RunHeld_example :
    Returns
      (λ r q. RunHeld r q.0)
      (run_calculation_job_service accepting_executor job_1 (created_env, tt))
run_calculation_job_service-RunHeld_example =
    run_calculation_job_service-RunHeld accepting_executor job_1 (created_env, tt)

record_dispatch_outcome-Answered_example :
    Returns
      (Answered command_1)
      (record_dispatch_outcome command_1 dispatch_accepted dispatching_env)
record_dispatch_outcome-Answered_example =
    record_dispatch_outcome-Answered command_1 dispatch_accepted dispatching_env

begin_dispatch-Opened_example : Returns Opened (begin_dispatch durable_1 prepared_env)
begin_dispatch-Opened_example = begin_dispatch-Opened durable_1 prepared_env

prepare_calculation_job_run_service-Prepared_example :
    Returns Prepared (prepare_calculation_job_run_service job_1 created_env)
prepare_calculation_job_run_service-Prepared_example =
    prepare_calculation_job_run_service-Prepared job_1 created_env

reconcile_execution_attempt_service-Reconciled_example :
    Returns
      (λ r q. Reconciled attempt_1 r q.0)
      (reconcile_execution_attempt_service accepting_executor attempt_1 (published_env, tt))
reconcile_execution_attempt_service-Reconciled_example =
    reconcile_execution_attempt_service-Reconciled accepting_executor attempt_1 (published_env, tt)

apply_reconciliation-Reconciled_example :
    Returns
      (Reconciled context_1.execution_attempt_id)
      (apply_reconciliation context_1 (terminal success) running_env)
apply_reconciliation-Reconciled_example =
    apply_reconciliation-Reconciled context_1 (terminal success) running_env

submit_dataset_validation_service-Reached_example :
    Returns (Reached "u'" validating) (submit_dataset_validation_service "u'" succeeded_env)
submit_dataset_validation_service-Reached_example =
    submit_dataset_validation_service-Reached "u'" succeeded_env

decide_validated_dataset-Reached_example :
    Commits (Reached "u'" published) (decide_validated_dataset "u'" publish) validating_env
decide_validated_dataset-Reached_example =
    decide_validated_dataset-Reached "u'" publish validating_env

abandon_dataset_version_service-Reached_example :
    Commits (Reached "u'" abandoned) (abandon_dataset_version_service "u'") created_env
abandon_dataset_version_service-Reached_example =
    abandon_dataset_version_service-Reached "u'" created_env

allocate_next_attempt_number-above_example : 1 < allocate_next_attempt_number job_1 published_env
allocate_next_attempt_number-above_example =
    allocate_next_attempt_number-above job_1 published_env finished_attempt example_runs.2 refl

run_rounds-NoRace_example : NoRace (run_rounds accepting_executor 3 "missing" (created_env, tt))
run_rounds-NoRace_example = run_rounds-NoRace accepting_executor 3 "missing" (created_env, tt)

abbrev frozen_capex : FrozenDependency
frozen_capex = record {
  domain = "CAPEX";
  company_code = "C1";
  fiscal_year = 2026;
  period = "01";
  series_id = "s9";
  dataset_version_id = "v9";
  version = 4;
}

select_relevant-domains_example :
    Commits
      (λ found t.
        (map (λ d. d.domain) found ≡ "CAPEX" ∷ [])
        × ((d : FrozenDependency) → Memᴰ d found → IsOnly (frozen_capex ∷ []) d)
        × (t ≡ created_env))
      (select_relevant_frozen_dependencies ("CAPEX" ∷ []) (frozen_capex ∷ []))
      created_env
select_relevant-domains_example =
    select_relevant-domains ("CAPEX" ∷ []) (frozen_capex ∷ []) created_env

record_dispatch_outcome-terminal_example :
    (record_dispatch_outcome command_1 already_exists published_env).1.db ≡ published_env.db
record_dispatch_outcome-terminal_example =
    record_dispatch_outcome-terminal command_1 already_exists published_env finished_attempt
      example_runs.13 refl

apply_reconciliation-terminal_example :
    (apply_reconciliation context_1 (terminal success) published_env).1.db ≡ published_env.db
apply_reconciliation-terminal_example =
    apply_reconciliation-terminal context_1 (terminal success) published_env finished_attempt
      example_runs.13 refl
