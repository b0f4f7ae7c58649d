-- ===== src/Dispatch/Run.antt =====
-- `runCalculationJobService` of modules/calculation-job-run.service.ts: at most three rounds of
-- routing, dispatch and recording, each its own transaction, with the executor called in between.
use cost_engine_orchestratio.Base.{
  ℕ, zero, suc, String, Bool, true, false, ltb, if◌then◌else◌, nat_eq, string_eq, option_eq,
}
use cost_engine_orchestratio.Errors.{
  Error, job_not_runnable, executor_dispatch_failed, attempt_routing_race,
}
use cost_engine_orchestratio.Exec.{Exec, pure, throw, ◌>>=◌, try_catch}
use cost_engine_orchestratio.Store.Status.{
  dataset_status_eq, job_status_eq, attempt_status_eq, definition_status_eq,
}
use cost_engine_orchestratio.Store.Transaction.{Env, Action}
use cost_engine_orchestratio.Dispatch.Types.{
  DispatchCommand, DispatchResult, dispatch_unknown, RunResult, BeginDispatchResult, dispatch,
  already_accepted, RecordOutcomeResult, recorded, rejection, ExecutionIdentity, ExecutorStatus,
}
use cost_engine_orchestratio.Dispatch.Service.{obtain_durable_run_attempt, begin_dispatch}
use cost_engine_orchestratio.Dispatch.Recording.{record_dispatch_outcome}

-- CalculationExecutor. A call may throw; while it is awaited other transactions may commit, so it
-- acts on the environment beside the executor's own state.
pub record Executor (X : Type 0) : Type 0 where
  pub dispatch_run : DispatchCommand → Exec (Env × X) DispatchResult
  pub get_execution_status : ExecutionIdentity → Exec (Env × X) ExecutorStatus

-- An action on the database, beside the executor's state.
unfoldable pub on_env : {X A : Type 0} → Action A → Exec (Env × X) A
on_env m (s, x) = let (r, s') = m s in (r, (s', x))

-- The message of the error that the executor threw is not modelled.
unfoldable pub unknown_dispatch_result : DispatchResult
unknown_dispatch_result = dispatch_unknown "Executor dispatch raised an ambiguous error"

-- errors after which the service takes another round; `left` counts the rounds after this one
abbrev pub is_retried : ℕ → Error → Bool
is_retried left attempt_routing_race = true
is_retried left (job_not_runnable _) = ltb 0 left
is_retried left _ = false

module _ {X : Type 0} (executor : Executor X) where
  open executor use {dispatch_run}

  unfoldable pub finish_round : String → RecordOutcomeResult → Exec (Env × X) RunResult
  finish_round job_id rejection = throw (executor_dispatch_failed job_id)
  finish_round job_id (recorded result) = pure result

  unfoldable pub after_begin : String → BeginDispatchResult → Exec (Env × X) RunResult
  after_begin job_id (already_accepted result) = pure result
  after_begin job_id (dispatch command) = do
    outcome ← try_catch (dispatch_run command) (λ _. pure unknown_dispatch_result)
    answer ← on_env (record_dispatch_outcome command outcome)
    finish_round job_id answer

  -- the body of the loop
  unfoldable pub run_round : String → Exec (Env × X) RunResult
  run_round job_id = do
    durable ← on_env (obtain_durable_run_attempt job_id)
    begun ← on_env (begin_dispatch durable)
    after_begin job_id begun

  unfoldable pub run_rounds : ℕ → String → Exec (Env × X) RunResult
  run_rounds zero job_id = throw (job_not_runnable job_id)
  run_rounds (suc left) job_id =
      let again = run_rounds left job_id in
      try_catch (run_round job_id) (λ e. if is_retried left e then again else throw e)

  unfoldable pub run_calculation_job_service : String → Exec (Env × X) RunResult
  run_calculation_job_service job_id = run_rounds 3 job_id
