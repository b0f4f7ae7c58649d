-- ===== src/Reach.antt =====
-- Every transaction of the services, in any order and with any arguments: what requests that run at
-- the same time, an executor's answers and callbacks do to the tables is a sequence of these steps.
use cost_engine_orchestratio.Base.{ℕ, String, ◌≡◌, true, [], Memᴰ, nat_eq, string_eq, option_eq}
use cost_engine_orchestratio.Store.Status.{
  dataset_status_eq, job_status_eq, attempt_status_eq, definition_status_eq, is_active_attempt,
}
use cost_engine_orchestratio.Store.Tables.{ExecutionAttempt, Database}
use cost_engine_orchestratio.Store.Transaction.{CommitReply, Env}
use cost_engine_orchestratio.Consistency.Invariant.{IsConsistent}
use cost_engine_orchestratio.Preparation.Service.{prepare_calculation_job_run_service}
use cost_engine_orchestratio.Dispatch.Types.{
  DispatchCommand, DispatchResult, RoutingState, DurableRunAttempt,
}
use cost_engine_orchestratio.Dispatch.Service.{begin_dispatch}
use cost_engine_orchestratio.Dispatch.Recording.{record_dispatch_outcome}
use cost_engine_orchestratio.Dispatch.Service.{prepare_failed_calculation_job_retry}
use cost_engine_orchestratio.Preparation.Keeping.{prepare_calculation_job_run_service-Stays}
use cost_engine_orchestratio.Preparation.Keeping.{prepare_calculation_job_run_service-Stays}
use cost_engine_orchestratio.Dispatch.Service.{prepare_failed_calculation_job_retry}
use cost_engine_orchestratio.Dispatch.Keeping.{
  prepare_failed_calculation_job_retry-Stays, begin_dispatch-Stays, record_dispatch_outcome-Stays,
}
use cost_engine_orchestratio.Reconciliation.Repository.{AttemptContext}
use cost_engine_orchestratio.Reconciliation.Service.{Report, apply_reconciliation}
use cost_engine_orchestratio.Reconciliation.Safety.{apply_reconciliation-Stays}
use cost_engine_orchestratio.Lifecycle.Service.{
  Decision, submit_dataset_validation_service, decide_validated_dataset,
  abandon_dataset_version_service,
}
use cost_engine_orchestratio.Lifecycle.Safety.{
  submit_dataset_validation_service-Stays, decide_validated_dataset-Stays,
  abandon_dataset_version_service-Stays,
}
use cost_engine_orchestratio.Creation.Service.{CreateInput, create_dataset_version_service}
use cost_engine_orchestratio.Creation.Safety.{create_dataset_version_service-Stays}

-- One transaction of a service, or time that passes.
pub data Step : Env → Env → Type 0 where
  create : {s : Env} (input : CreateInput) → Step s (create_dataset_version_service input s).1
  prepare : {s : Env} (job_id : String) → Step s (prepare_calculation_job_run_service job_id s).1
  retry : {s : Env} (state : RoutingState) → Step s (prepare_failed_calculation_job_retry state s).1
  begin : {s : Env} (durable : DurableRunAttempt) → Step s (begin_dispatch durable s).1
  record_answer :
      {s : Env} (c : DispatchCommand) (answer : DispatchResult)
      → Step s (record_dispatch_outcome c answer s).1
  reconcile :
      {s : Env} (phase_a : AttemptContext) (report : Report)
      → Step s (apply_reconciliation phase_a report s).1
  submit :
      {s : Env} (version_id : String) → Step s (submit_dataset_validation_service version_id s).1
  decide :
      {s : Env} (version_id : String) (decision : Decision)
      → Step s (decide_validated_dataset version_id decision s).1
  abandon :
      {s : Env} (version_id : String) → Step s (abandon_dataset_version_service version_id s).1
  tick :
      {s : Env} (now : ℕ) (uuids : ℕ → String) (commits : Database → Database → CommitReply)
      → Step s (record s { now = now; uuids = uuids; commits = commits })

pub data Reachable (start : Env) : Env → Type 0 where
  at_start : Reachable start start
  after_step : {s t : Env} → Reachable start s → Step s t → Reachable start t

Step-IsConsistent : {s t : Env} → Step s t → IsConsistent s.db → IsConsistent t.db
Step-IsConsistent {s} (create input) k = (create_dataset_version_service-Stays input).after s k
Step-IsConsistent {s} (prepare job_id) k =
    (prepare_calculation_job_run_service-Stays job_id).after s k
Step-IsConsistent {s} (retry state) k = (prepare_failed_calculation_job_retry-Stays state).after s k
Step-IsConsistent {s} (begin durable) k = (begin_dispatch-Stays durable).after s k
Step-IsConsistent {s} (record_answer c answer) k =
    (record_dispatch_outcome-Stays c answer).after s k
Step-IsConsistent {s} (reconcile phase_a report) k =
    (apply_reconciliation-Stays phase_a report).after s k
Step-IsConsistent {s} (submit version_id) k =
    (submit_dataset_validation_service-Stays version_id).after s k
Step-IsConsistent {s} (decide version_id decision) k =
    (decide_validated_dataset-Stays version_id decision).after s k
Step-IsConsistent {s} (abandon version_id) k =
    (abandon_dataset_version_service-Stays version_id).after s k
Step-IsConsistent {s} (tick now uuids commits) k = k

-- Whatever transactions run, in whatever order and with whatever arguments and answers of the
-- executor, tables that are consistent at the start are consistent: ids are unique, a job has at most
-- one active attempt, each attempt's status fits its job's, active attempts are in BUILDING versions,
-- and a version past BUILDING has SUCCEEDED jobs only.
pub Reachable-IsConsistent :
    {start s : Env} → Reachable start s → IsConsistent start.db → IsConsistent s.db
Reachable-IsConsistent at_start k = k
Reachable-IsConsistent (after_step r step) k = Step-IsConsistent step (Reachable-IsConsistent r k)

-- Tables without versions, jobs and attempts are consistent.
pub empty-IsConsistent :
    (db : Database) → db.versions ≡ [] → db.jobs ≡ [] → db.attempts ≡ [] → IsConsistent db
empty-IsConsistent db ev ej ea =
    rw (ev, ej, ea)
      (record {
        version_ids = λ x y m. elim m [ ];
        job_ids = λ x y m. elim m [ ];
        attempt_ids = λ x y m. elim m [ ];
        one_active = λ x y m. elim m [ ];
        attempt_owned = λ a m. elim m [ ];
        job_owned = λ j m. elim m [ ];
        statuses = λ j a m. elim m [ ];
        active_in_building = λ v j a m. elim m [ ];
        validated_succeeded = λ v j m. elim m [ ];
      })

-- In any state that transactions reach from consistent tables, two active attempts of one job are the
-- same row.
pub Reachable-one_active :
    {start s : Env}
    → Reachable start s
    → IsConsistent start.db
    → (a b : ExecutionAttempt) → Memᴰ a s.db.attempts
    → Memᴰ b s.db.attempts
    → is_active_attempt a.status ≡ true
    → is_active_attempt b.status ≡ true
    → a.job_id ≡ b.job_id
    → a ≡ b
Reachable-one_active r k = (Reachable-IsConsistent r k).one_active
