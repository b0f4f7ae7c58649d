-- ===== src/Dispatch/RunHeld.antt =====
-- modules/calculation-job-run.service.ts: what a whole run answers, beside what the tables hold.
use cost_engine_orchestratio.Base.{
  ℕ, zero, suc, String, ◌≡◌, refl, sym, ◌∙◌, ◌==◌, nat_eq, string_eq, option_eq, eq_of_==,
  Bool-cases, inl, inr, if◌then◌else◌,
}
use cost_engine_orchestratio.Exec.{Result, ok, err, Exec, throw, try_catch, catch_result}
use cost_engine_orchestratio.Exec.Commits.{
  Returns, Commits, pure-Commits, throw-Commits, if_Commits, bind-Commits, gets-Commits,
  or_throw-Commits, require-Commits, anything-Commits,
}
use cost_engine_orchestratio.Store.Status.{
  accepted, dataset_status_eq, job_status_eq, attempt_status_eq, definition_status_eq,
}
use cost_engine_orchestratio.Store.Tables.{ExecutionAttempt}
use cost_engine_orchestratio.Store.Transaction.{Env, Action}
use cost_engine_orchestratio.Store.Rollback.{with_transaction-Returns}
use cost_engine_orchestratio.Dispatch.Types.{
  DispatchContext, DurableRunAttempt, BeginDispatchResult, dispatch, already_accepted, RunResult,
  RecordOutcomeResult, recorded, rejection,
}
use cost_engine_orchestratio.Dispatch.Lookups.{
  lock_dispatch_context-ContextRows, lock_active_execution_attempt-mem,
}
use cost_engine_orchestratio.Dispatch.Service.{
  accepted_result, dispatch_active, begin_dispatch, begin_dispatch_transaction,
  already_accepted_result,
}
use cost_engine_orchestratio.Dispatch.Durable.{
  AttemptHas, JobIs, Answered, key_of, result_key, record_dispatch_outcome-Answered,
}
use cost_engine_orchestratio.Dispatch.Run.{
  Executor, on_env, is_retried, finish_round, after_begin, run_round, run_rounds,
  run_calculation_job_service,
}

-- The attempt of a result, with its number and run ids, and its job have the statuses that it answers.
abbrev pub RunHeld : RunResult → Env → Type 0
RunHeld r t =
    AttemptHas (result_key r) r.attempt_status t.db.attempts × JobIs r.job_id r.job_status t.db.jobs

abbrev BegunHeld : BeginDispatchResult → Env → Type 0
BegunHeld (dispatch c) t = Unit {0}
BegunHeld (already_accepted r) t = RunHeld r t

dispatch_active-BegunHeld :
    (c : DispatchContext) (snapshot_id definition_id : String) (a : ExecutionAttempt) {s : Env}
    → Commits BegunHeld (dispatch_active c snapshot_id definition_id a) s
unfolding dispatch_active
dispatch_active-BegunHeld c snapshot_id definition_id a = require-Commits _ _ λ _.
    bind-Commits _ _ (anything-Commits _) λ _ t _.
      gets-Commits _ _
        (gets-Commits _ _ (bind-Commits _ _ (anything-Commits _) λ _ u _. pure-Commits _ tt))

begin_dispatch-BegunHeld :
    (durable : DurableRunAttempt) (s : Env) → Returns BegunHeld (begin_dispatch durable s)
unfolding begin_dispatch begin_dispatch_transaction already_accepted_result accepted_result
begin_dispatch-BegunHeld durable s = with_transaction-Returns _ s (
    gets-Commits _ _ (
      or_throw-Commits _ _ λ c found.
        let rows = lock_dispatch_context-ContextRows durable.job_id s c found in
        require-Commits _ _ λ _. gets-Commits _ _ (
          or_throw-Commits _ _ λ snapshot_id _. or_throw-Commits _ _ λ definition_id _.
            require-Commits _ _ λ _. gets-Commits _ _ (
              or_throw-Commits _ _ λ a found_active.
                let (m, of_job, active) =
                  lock_active_execution_attempt-mem c.job_id s found_active in
                require-Commits _ _ λ same.
                  if_Commits (a.status == accepted)
                    (λ at. require-Commits _ _ λ is_running. pure-Commits _ (
                      record {
                        row = a;
                        row_in = m;
                        has_key = same_run a (eq_of_== same) (of_job ∙ rows.read_id ∙ rows.asked);
                        in_status = eq_of_== ⦃e = attempt_status_eq⦄ at;
                      },
                      record {
                        row = rows.job;
                        row_in = rows.job_in;
                        has_id = rows.asked;
                        in_status = sym rows.read_status ∙ eq_of_== ⦃e = job_status_eq⦄ is_running;
                      },
                    ))
                    (λ _. dispatch_active-BegunHeld c snapshot_id definition_id a)))))
  where
    same_run :
        (a : ExecutionAttempt)
        → a.id ≡ durable.execution_attempt_id
        → a.job_id ≡ durable.job_id
        → key_of a
          ≡ record (key_of a) { id = durable.execution_attempt_id; job_id = durable.job_id }
    same_run a e f = rw (e, f) refl

module _ {X : Type 0} where
  pub on_env-Commits :
      {A : Type 0} (Q : A → Env → Type 0) (m : Action A) (p : Env × X)
      → Returns Q (m p.0)
      → Commits (λ a (q : Env × X). Q a q.0) (on_env m) p
  unfolding on_env
  on_env-Commits {A = A} Q m (s, x) h = record { holds = kept (m s) h }
    where
      kept :
          (r : Result A × Env) → Returns Q r → Returns (λ a (q : Env × X). Q a q.0) (r.0, (r.1, x))
      kept (ok a, t) h = h
      kept (err e, t) h = tt

  module _ (executor : Executor X) where
    after_begin-Held :
        (job_id : String) (begun : BeginDispatchResult) {p : Env × X}
        → BegunHeld begun p.0
        → Commits (λ r q. RunHeld r q.0) (after_begin executor job_id begun) p
    unfolding after_begin finish_round
    after_begin-Held job_id (already_accepted r) h = pure-Commits _ h
    after_begin-Held job_id (dispatch c) h = bind-Commits _ _ (anything-Commits _) λ outcome q _.
        bind-Commits _ _ (on_env-Commits _ _ q (record_dispatch_outcome-Answered c outcome q.0))
          answered
      where
        answered :
            (answer : RecordOutcomeResult) (t : Env × X)
            → Answered c answer t.0
            → Commits (λ r q. RunHeld r q.0) (finish_round executor job_id answer) t
        answered (recorded r) t (a, j) = pure-Commits _ (
          a,
          record { row = j.row; row_in = j.row_in; has_id = j.has_id; in_status = j.in_status },
        )
        answered rejection t h = throw-Commits _

    run_round-Held :
        (job_id : String) (p : Env × X)
        → Commits (λ r q. RunHeld r q.0) (run_round executor job_id) p
    unfolding run_round
    run_round-Held job_id p = bind-Commits _ _ (anything-Commits _) λ durable q _.
        bind-Commits _ _ (on_env-Commits _ _ q (begin_dispatch-BegunHeld durable q.0))
          λ begun t h. after_begin-Held job_id begun h

    caught-Held :
        (left : ℕ) (again : Exec (Env × X) RunResult)
        → ((p : Env × X) → Returns (λ r q. RunHeld r q.0) (again p))
        → (r : Result RunResult × (Env × X)) → Returns (λ r q. RunHeld r q.0) r
        → Returns
            (λ r q. RunHeld r q.0)
            (let (v, t) = r in catch_result (λ e. if is_retried left e then again else throw e) v t)
    unfolding throw
    caught-Held left again k (ok a, t) h = h
    caught-Held left again k (err e, t) h = elim (Bool-cases (is_retried left e)) [
      | inl again_now ↦ rw again_now (k t)
      | inr over ↦ rw over tt
    ]

    run_rounds-Held :
        (left : ℕ) (job_id : String) (p : Env × X)
        → Returns (λ r q. RunHeld r q.0) (run_rounds executor left job_id p)
    unfolding run_rounds try_catch throw
    run_rounds-Held zero job_id p = tt
    run_rounds-Held (suc left) job_id p =
        caught-Held left (run_rounds executor left job_id) (run_rounds-Held left job_id)
          (run_round executor job_id p) (run_round-Held job_id p).holds

    -- Whenever a run returns, with any executor, the tables hold the attempt with the id, number, run ids,
    -- job and status that it answers, and the job with the status that it answers.
    pub run_calculation_job_service-RunHeld :
        (job_id : String) (p : Env × X)
        → Returns (λ r q. RunHeld r q.0) (run_calculation_job_service executor job_id p)
    unfolding run_calculation_job_service
    run_calculation_job_service-RunHeld job_id p = run_rounds-Held 3 job_id p
