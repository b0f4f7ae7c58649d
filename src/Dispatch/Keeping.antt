-- ===== src/Dispatch/Keeping.antt =====
-- modules/calculation-job-run.service.ts: obtaining an attempt, opening a dispatch and recording its
-- outcome, and the invariant of the tables.
use cost_engine_orchestratio.Base.{
  String, ◌≡◌, subst, true, Option, none, some, arith, ◌==◌, nat_eq, string_eq, option_eq, eq_of_==,
}
use cost_engine_orchestratio.Exec.{pure, ◌>>=◌}
use cost_engine_orchestratio.Exec.Commits.{
  pure-Commits, bind-Commits, gets-Commits, or_throw-Commits, require-Commits,
}
use cost_engine_orchestratio.Store.Status.{
  JobStatus, pending, running, succeeded, failed, prepared, dataset_status_eq, job_status_eq,
  attempt_status_eq, definition_status_eq,
}
use cost_engine_orchestratio.Store.Tables.{ExecutionAttempt}
use cost_engine_orchestratio.Store.Transaction.{Env}
use cost_engine_orchestratio.Consistency.Invariant.{compatible, IsConsistent}
use cost_engine_orchestratio.Preparation.Types.{LockedSelectedJob}
use cost_engine_orchestratio.Preparation.Repository.{find_active_execution_attempt}
use cost_engine_orchestratio.Preparation.Service.{prepare_new_attempt}
use cost_engine_orchestratio.Consistency.Keeps.{
  Keeps, Stays, with_transaction-Stays, pure-Stays, throw-Stays, gets-Stays, or_throw-Stays,
  require-Stays, bind-Stays,
}
use cost_engine_orchestratio.Preparation.Lookups.{
  SelectedRows, lock_selected_calculation_job-SelectedRows,
}
use cost_engine_orchestratio.Preparation.Safety.{IsBuilding, prepare_new_attempt-Keeps}
use cost_engine_orchestratio.Dispatch.Types.{
  DispatchCommand, DispatchResult, RoutingState, DurableRunAttempt,
}
use cost_engine_orchestratio.Dispatch.Service.{obtain_durable_run_attempt, begin_dispatch}
use cost_engine_orchestratio.Dispatch.Recording.{record_dispatch_outcome}
use cost_engine_orchestratio.Dispatch.Service.{
  require_frozen_routing_state, durable_attempt_from_routing_state, from_prepared,
  reuse_retry_attempt, retry_transaction, prepare_failed_calculation_job_retry, route_pending,
  route_failed, route,
}
use cost_engine_orchestratio.Dispatch.Safety.{
  begin_dispatch_transaction-Keeps, record_outcome_transaction-Keeps,
}
use cost_engine_orchestratio.Preparation.Keeping.{
  locked_building, prepare_calculation_job_run_service-Stays,
}

failed_fits : (u : JobStatus) → (u == failed) ≡ true → compatible u prepared ≡ true
failed_fits u h = ground arith

-- The retry of a FAILED job in a BUILDING version.
retry_transaction-Keeps :
    (state : RoutingState) (s : Env) → IsConsistent s.db → Keeps (retry_transaction state) s
unfolding retry_transaction reuse_retry_attempt
retry_transaction-Keeps state s k = gets-Commits _ _ (
    or_throw-Commits _ _ λ v found. require-Commits _ _ λ is_building. gets-Commits _ _ (
      or_throw-Commits _ _ λ snapshot_id _. require-Commits _ _ λ _. require-Commits _ _ λ _.
        gets-Commits _ _ (
          or_throw-Commits _ _ λ l found_job.
            let rows = lock_selected_calculation_job-SelectedRows state.job_id s l found_job in
            require-Commits _ _ λ same. require-Commits _ _ λ is_failed. require-Commits _ _ λ _.
              gets-Commits _ _ (
                by_active l snapshot_id rows
                  (locked_building state.dataset_version_id s k found is_building) (eq_of_== same)
                  (failed_fits rows.job.status
                    (subst (λ (u : JobStatus). (u == failed) ≡ true) rows.read_status is_failed))
                  (find_active_execution_attempt l.id s)))))
  where
    by_active :
        (l : LockedSelectedJob) (snapshot_id : String) (rows : SelectedRows state.job_id s l)
        → IsBuilding state.dataset_version_id s.db
        → l.dataset_version_id ≡ state.dataset_version_id
        → compatible rows.job.status prepared ≡ true
        → (active : Option ExecutionAttempt)
        → Keeps
            (elim active [
              | some attempt ↦ reuse_retry_attempt state snapshot_id l attempt
              | none ↦ do
                new ← prepare_new_attempt state.dataset_version_id snapshot_id l
                pure (from_prepared failed new)
            ])
            s
    by_active l snapshot_id rows b same fits (some a) = require-Commits _ _ λ _. pure-Commits _ k
    by_active l snapshot_id rows b same fits none =
        bind-Commits _ _
          (prepare_new_attempt-Keeps state.dataset_version_id snapshot_id l b rows same fits)
          λ _ _ kt. pure-Commits _ kt

require_frozen-Stays : (state : RoutingState) → Stays (require_frozen_routing_state state)
unfolding require_frozen_routing_state
require_frozen-Stays state = bind-Stays _ _ (require-Stays _ _) λ _.
    bind-Stays _ _ (or_throw-Stays _ _) λ _. bind-Stays _ _ (require-Stays _ _) λ _. pure-Stays _

durable_attempt-Stays : (state : RoutingState) → Stays (durable_attempt_from_routing_state state)
unfolding durable_attempt_from_routing_state
durable_attempt-Stays state =
    bind-Stays _ _ (or_throw-Stays _ _)
      λ _. bind-Stays _ _ (require_frozen-Stays state) λ _. pure-Stays _

route_pending-Stays :
    (job_id : String) (state : RoutingState) (active : Option ExecutionAttempt)
    → Stays (route_pending job_id state active)
unfolding route_pending
route_pending-Stays job_id state (some a) =
    bind-Stays _ _ (require-Stays _ _) λ _. durable_attempt-Stays state
route_pending-Stays job_id state none =
    bind-Stays _ _ (prepare_calculation_job_run_service-Stays job_id) λ _. pure-Stays _

pub prepare_failed_calculation_job_retry-Stays :
    (state : RoutingState) → Stays (prepare_failed_calculation_job_retry state)
unfolding prepare_failed_calculation_job_retry
prepare_failed_calculation_job_retry-Stays state =
    with_transaction-Stays _ (retry_transaction-Keeps state)

route_failed-Stays :
    (state : RoutingState) (active : Option ExecutionAttempt) → Stays (route_failed state active)
unfolding route_failed
route_failed-Stays state (some a) =
    bind-Stays _ _ (require-Stays _ _) λ _. durable_attempt-Stays state
route_failed-Stays state none = prepare_failed_calculation_job_retry-Stays state

route-Stays :
    (job_id : String) (state : RoutingState) (status : JobStatus)
    → Stays (route job_id state status)
unfolding route
route-Stays job_id state succeeded = throw-Stays _
route-Stays job_id state running =
    bind-Stays _ _ (require-Stays _ _) λ _. durable_attempt-Stays state
route-Stays job_id state pending = route_pending-Stays job_id state state.active_attempt
route-Stays job_id state failed =
    bind-Stays _ _ (require-Stays _ _) λ _. route_failed-Stays state state.active_attempt

-- Routing to an attempt, preparing one where there is none.
pub obtain_durable_run_attempt-Stays : (job_id : String) → Stays (obtain_durable_run_attempt job_id)
unfolding obtain_durable_run_attempt
obtain_durable_run_attempt-Stays job_id =
    bind-Stays _ _ (gets-Stays _)
      λ _. bind-Stays _ _ (or_throw-Stays _ _) λ state. route-Stays job_id state state.job_status

pub begin_dispatch-Stays : (durable : DurableRunAttempt) → Stays (begin_dispatch durable)
unfolding begin_dispatch
begin_dispatch-Stays durable = with_transaction-Stays _ (begin_dispatch_transaction-Keeps durable)

pub record_dispatch_outcome-Stays :
    (c : DispatchCommand) (outcome : DispatchResult) → Stays (record_dispatch_outcome c outcome)
unfolding record_dispatch_outcome
record_dispatch_outcome-Stays c outcome =
    with_transaction-Stays _ (record_outcome_transaction-Keeps c outcome)
