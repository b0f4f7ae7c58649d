-- ===== src/Dispatch/Opened.antt =====
-- modules/calculation-job-run.service.ts: what beginDispatch answers, beside what the tables hold.
use cost_engine_orchestratio.Base.{
  String, ◌≡◌, refl, sym, subst, ◌∙◌, true, false, none, some, Memᴰ, arith, ◌==◌, nat_eq, string_eq,
  option_eq, eq_of_==,
}
use cost_engine_orchestratio.Exec.Commits.{
  Returns, Commits, pure-Commits, if_Commits, bind-Commits, gets-Commits, or_throw-Commits,
  require-Commits, require_last,
}
use cost_engine_orchestratio.Store.Status.{
  running, AttemptStatus, prepared, dispatching, accepted, dataset_status_eq, job_status_eq,
  attempt_status_eq, definition_status_eq, is_active_attempt,
}
use cost_engine_orchestratio.Store.Tables.{ExecutionAttempt}
use cost_engine_orchestratio.Store.Transaction.{Env}
use cost_engine_orchestratio.Store.Updates.{update_attempts-Commits}
use cost_engine_orchestratio.Dispatch.Lookups.{
  lock_dispatch_context-ContextRows, lock_active_execution_attempt-mem,
}
use cost_engine_orchestratio.Dispatch.Types.{
  DispatchContext, DurableRunAttempt, BeginDispatchResult, dispatch, already_accepted,
}
use cost_engine_orchestratio.Dispatch.Repository.{mark_execution_attempt_dispatching}
use cost_engine_orchestratio.Dispatch.Service.{
  accepted_result, begin_dispatch, ensure_dispatching, dispatch_active, begin_dispatch_transaction,
  already_accepted_result,
}
use cost_engine_orchestratio.Store.Rollback.{with_transaction-Returns}
use cost_engine_orchestratio.Dispatch.Durable.{AttemptIs, JobIs, attempt_updated}
use cost_engine_orchestratio.Dispatch.Routing.{select_relevant-domains}

-- What the opening of a dispatch answers is what the tables hold.
abbrev pub Opened : BeginDispatchResult → Env → Type 0
Opened (dispatch c) t = AttemptIs c.execution_attempt_id dispatching t.db.attempts
Opened (already_accepted r) t =
    AttemptIs r.execution_attempt_id accepted t.db.attempts × JobIs r.job_id running t.db.jobs

neither_accepted_nor_prepared :
    (u : AttemptStatus)
    → is_active_attempt u ≡ true
    → (u == accepted) ≡ false
    → (u == prepared) ≡ false
    → u ≡ dispatching
neither_accepted_nor_prepared u active not_accepted not_prepared =
    eq_of_== ⦃e = attempt_status_eq⦄ (only_dispatching u active not_accepted not_prepared)
  where
    only_dispatching :
        (u : AttemptStatus)
        → is_active_attempt u ≡ true
        → (u == accepted) ≡ false
        → (u == prepared) ≡ false
        → (u == dispatching) ≡ true
    only_dispatching u active not_accepted not_prepared = ground arith

ensure_dispatching-AttemptIs :
    (a : ExecutionAttempt) {s : Env}
    → Memᴰ a s.db.attempts
    → is_active_attempt a.status ≡ true
    → (a.status == accepted) ≡ false
    → Commits (λ _ t. AttemptIs a.id dispatching t.db.attempts) (ensure_dispatching a) s
unfolding ensure_dispatching mark_execution_attempt_dispatching
ensure_dispatching-AttemptIs a {s} m active not_accepted =
    if_Commits (a.status == prepared)
      (λ at. update_attempts-Commits _ _ _ λ b. require_last b _ (
        attempt_updated {ats = s.db.attempts} a.id prepared
          (λ b. record b {
            status = dispatching;
            dispatch_started_at = some s.now;
            last_dispatch_error = none;
          })
          m refl (eq_of_== ⦃e = attempt_status_eq⦄ at) (λ _. refl)))
      (λ not_prepared. pure-Commits _ (record {
        row = a;
        row_in = m;
        has_id = refl;
        in_status = neither_accepted_nor_prepared a.status active not_accepted not_prepared;
      }))

dispatch_active-Opened :
    (c : DispatchContext) (snapshot_id definition_id : String) (a : ExecutionAttempt) {s : Env}
    → Memᴰ a s.db.attempts
    → is_active_attempt a.status ≡ true
    → (a.status == accepted) ≡ false
    → Commits Opened (dispatch_active c snapshot_id definition_id a) s
unfolding dispatch_active
dispatch_active-Opened c snapshot_id definition_id a m active not_accepted =
    require-Commits _ _ λ _.
      bind-Commits {P = λ _ t. AttemptIs a.id dispatching t.db.attempts} _ _
        (ensure_dispatching-AttemptIs a m active not_accepted)
        λ _ t is. gets-Commits _ _ (
          gets-Commits _ _ (
            bind-Commits _ _ (select_relevant-domains _ _ t) λ _ u (_, _, same).
              pure-Commits _
                (subst (λ (t : Env). AttemptIs a.id dispatching t.db.attempts) (sym same) is)))

-- Whenever the opening of a dispatch returns a command, the command's attempt is DISPATCHING in the
-- tables; when it answers that the run was accepted, the attempt is ACCEPTED and the job RUNNING.
pub begin_dispatch-Opened :
    (durable : DurableRunAttempt) (s : Env) → Returns Opened (begin_dispatch durable s)
unfolding begin_dispatch begin_dispatch_transaction already_accepted_result accepted_result
begin_dispatch-Opened durable s = with_transaction-Returns _ s (
    gets-Commits _ _ (
      or_throw-Commits _ _ λ c found.
        let rows = lock_dispatch_context-ContextRows durable.job_id s c found in
        require-Commits _ _ λ _. gets-Commits _ _ (
          or_throw-Commits _ _ λ snapshot_id _. or_throw-Commits _ _ λ definition_id _.
            require-Commits _ _ λ _. gets-Commits _ _ (
              or_throw-Commits _ _ λ a found_active.
                let (m, _, active) = lock_active_execution_attempt-mem c.job_id s found_active in
                require-Commits _ _ λ same.
                  if_Commits (a.status == accepted)
                    (λ at. require-Commits _ _ λ is_running. pure-Commits _ (
                      record {
                        row = a;
                        row_in = m;
                        has_id = eq_of_== same;
                        in_status = eq_of_== ⦃e = attempt_status_eq⦄ at;
                      },
                      record {
                        row = rows.job;
                        row_in = rows.job_in;
                        has_id = rows.asked;
                        in_status = sym rows.read_status ∙ eq_of_== ⦃e = job_status_eq⦄ is_running;
                      },
                    ))
                    (λ not_accepted.
                      dispatch_active-Opened c snapshot_id definition_id a m active
                        not_accepted)))))
