-- ===== src/Dispatch/Safety.antt =====
-- modules/calculation-job-run.service.ts: the transactions of beginDispatch and recordDispatchOutcome,
-- and the invariant of the tables.
use cost_engine_orchestratio.Base.{
  String, ◌≡◌, refl, sym, subst, ◌∙◌, true, false, ◌&&◌, List, [], ◌∷◌, Memᴰ, arith, ◌==◌, nat_eq,
  string_eq, option_eq, eq_of_==, and-true,
}
use cost_engine_orchestratio.Exec.Commits.{
  pure-Commits, if_Commits, bind-Commits, gets-Commits, or_throw-Commits, require-Commits,
  require_last,
}
use cost_engine_orchestratio.Store.Status.{
  DatasetStatus, JobStatus, running, AttemptStatus, prepared, dispatching, accepted,
  dispatch_failed, dataset_status_eq, job_status_eq, attempt_status_eq, definition_status_eq,
  is_active_attempt, is_terminal_attempt,
}
use cost_engine_orchestratio.Store.Tables.{ExecutionAttempt}
use cost_engine_orchestratio.Store.Transaction.{Env}
use cost_engine_orchestratio.Store.Updates.{update_attempts-Commits, update_jobs-Commits}
use cost_engine_orchestratio.Dispatch.Types.{
  FrozenDependency, DispatchCommand, DispatchResult, dispatch_accepted, already_exists,
  dispatch_rejected, dispatch_unknown, RunDispatchOutcome, outcome_accepted, outcome_already_exists,
  DispatchContext, DurableRunAttempt,
}
use cost_engine_orchestratio.Dispatch.Repository.{
  find_required_domains_for_definition, is_dispatchable, mark_execution_attempt_dispatching,
  mark_execution_attempt_accepted, mark_calculation_job_running,
  mark_execution_attempt_dispatch_failed, record_unknown_dispatch_diagnostic,
}
use cost_engine_orchestratio.Dispatch.Service.{
  ensure_dispatching, dispatch_active, begin_dispatch_transaction, already_accepted_result,
  select_relevant_frozen_dependencies,
}
use cost_engine_orchestratio.Consistency.Invariant.{compatible, IsConsistent}
use cost_engine_orchestratio.Consistency.Status.{both-Consistent, attempt-Consistent}
use cost_engine_orchestratio.Dispatch.Recording.{
  late_outcome, confirm_dispatch, reject_dispatch, note_unknown_dispatch, record_by_outcome,
  open_outcome, record_outcome_transaction,
}
use cost_engine_orchestratio.Consistency.Keeps.{Keeps}
use cost_engine_orchestratio.Dispatch.Lookups.{
  ContextRows, lock_dispatch_context-ContextRows, lock_execution_attempt-mem,
  lock_active_execution_attempt-mem,
}

-- an attempt that fits a job waiting to be dispatched fits it running, unless it is active
pub dispatchable-fits-others :
    (u : JobStatus) (r : AttemptStatus)
    → is_dispatchable u ≡ true
    → is_active_attempt r ≡ false
    → compatible u r ≡ true
    → compatible running r ≡ true
dispatchable-fits-others u r d i h = ground arith

dispatch_failed_fits :
    (u : JobStatus) → is_dispatchable u ≡ true → compatible u dispatch_failed ≡ true
dispatch_failed_fits u h = ground arith

dispatching_fits : (u : JobStatus) → is_dispatchable u ≡ true → compatible u dispatching ≡ true
dispatching_fits u h = ground arith

select_relevant-Keeps :
    (domains : List String) (frozen : List FrozenDependency) {s : Env}
    → IsConsistent s.db
    → Keeps (select_relevant_frozen_dependencies domains frozen) s
unfolding select_relevant_frozen_dependencies
select_relevant-Keeps [] frozen k = pure-Commits _ k
select_relevant-Keeps (domain ∷ domains) frozen k =
    or_throw-Commits _ _
      λ d _. bind-Commits _ _ (select_relevant-Keeps domains frozen k) λ _ _ kt. pure-Commits _ kt

module _ {id : String} {s : Env} {c : DispatchContext} (rows : ContextRows id s c)
    (k : IsConsistent s.db) {a : ExecutionAttempt} (ma : Memᴰ a s.db.attempts)
    (owner : a.job_id ≡ rows.job.id) where
  -- the guard that the three answers share
  ready-cases :
      (a.status == dispatching && is_dispatchable c.job_status) ≡ true
      → (a.status ≡ dispatching) × (is_dispatchable rows.job.status ≡ true)
  ready-cases h =
      let (at, open_job) = and-true h in
      (
        eq_of_== ⦃e = attempt_status_eq⦄ at,
        subst (λ (u : JobStatus). is_dispatchable u ≡ true) rows.read_status open_job,
      )

  confirm_dispatch-Keeps :
      (command : DispatchCommand) (outcome : RunDispatchOutcome)
      → Keeps (confirm_dispatch command c a outcome) s
  unfolding confirm_dispatch mark_execution_attempt_accepted mark_calculation_job_running
  confirm_dispatch-Keeps command outcome = require-Commits _ _ λ ready.
      update_attempts-Commits _ _ _ λ _. update_jobs-Commits _ _ _ λ _. require-Commits _ _ λ _.
        let (at, was_open) = ready-cases ready in
        pure-Commits _ (
          both-Consistent k ma rows.job_in owner dispatching refl (ready-cases ready).0 _
            (λ _. refl) (λ _. refl) rows.read_id is_dispatchable was_open _ (λ _. refl) (λ _. refl)
            refl (λ r idle h. dispatchable-fits-others rows.job.status r was_open idle h))

  reject_dispatch-Keeps : (message : String) → Keeps (reject_dispatch c a message) s
  unfolding reject_dispatch mark_execution_attempt_dispatch_failed
  reject_dispatch-Keeps message =
      if_Commits (a.status == dispatch_failed && is_dispatchable c.job_status)
        (λ _. pure-Commits _ k)
        λ _. require-Commits _ _ λ ready. update_attempts-Commits _ _ _ λ _.
          require-Commits _ _ λ _. pure-Commits _ (
            attempt-Consistent k ma rows.job_in owner dispatching refl (ready-cases ready).0 _
              (λ _. refl) (λ _. refl) (dispatch_failed_fits rows.job.status (ready-cases ready).1))

  note_unknown_dispatch-Keeps :
      (command : DispatchCommand) (message : String)
      → Keeps (note_unknown_dispatch command c a message) s
  unfolding note_unknown_dispatch record_unknown_dispatch_diagnostic
  note_unknown_dispatch-Keeps command message = require-Commits _ _ λ ready.
      update_attempts-Commits _ _ _ λ _. require-Commits _ _ λ _. pure-Commits _ (
        attempt-Consistent k ma rows.job_in owner dispatching refl (ready-cases ready).0 _
          (λ _. refl) (λ _. refl) (k.statuses rows.job a rows.job_in ma owner))

  record_by_outcome-Keeps :
      (command : DispatchCommand) (outcome : DispatchResult)
      → Keeps (record_by_outcome command c a outcome) s
  unfolding record_by_outcome
  record_by_outcome-Keeps command dispatch_accepted =
      confirm_dispatch-Keeps command outcome_accepted
  record_by_outcome-Keeps command already_exists =
      confirm_dispatch-Keeps command outcome_already_exists
  record_by_outcome-Keeps command (dispatch_rejected message) = reject_dispatch-Keeps message
  record_by_outcome-Keeps command (dispatch_unknown message) =
      note_unknown_dispatch-Keeps command message

  open_outcome-Keeps :
      (command : DispatchCommand) (status : DatasetStatus) (outcome : DispatchResult)
      → Keeps (open_outcome command c a status outcome) s
  unfolding open_outcome
  open_outcome-Keeps command status outcome = require-Commits _ _ λ _.
      if_Commits (a.status == accepted && c.job_status == running) (λ _. pure-Commits _ k)
        λ _. record_by_outcome-Keeps command outcome

  late_outcome-Keeps :
      (command : DispatchCommand) (status : DatasetStatus) (outcome : DispatchResult)
      → Keeps (late_outcome command c a status outcome) s
  unfolding late_outcome
  late_outcome-Keeps command status outcome = require-Commits _ _ λ _.
      or_throw-Commits _ _ λ kind _. gets-Commits _ _ (require-Commits _ _ λ _. pure-Commits _ k)

  ensure_dispatching-Keeps : is_dispatchable c.job_status ≡ true → Keeps (ensure_dispatching a) s
  unfolding ensure_dispatching mark_execution_attempt_dispatching
  ensure_dispatching-Keeps ready =
      if_Commits (a.status == prepared)
        (λ was_prepared. update_attempts-Commits _ _ _ λ _. require_last _ _ (
          attempt-Consistent k ma rows.job_in owner prepared refl
            (eq_of_== ⦃e = attempt_status_eq⦄ was_prepared) _ (λ _. refl) (λ _. refl)
            (dispatching_fits rows.job.status
              (subst (λ (u : JobStatus). is_dispatchable u ≡ true) rows.read_status ready))))
        (λ _. pure-Commits _ k)

  dispatch_active-Keeps :
      (snapshot_id definition_id : String) → Keeps (dispatch_active c snapshot_id definition_id a) s
  unfolding dispatch_active
  dispatch_active-Keeps snapshot_id definition_id = require-Commits _ _ λ ready.
      bind-Commits _ _ (ensure_dispatching-Keeps ready) λ _ t kt. gets-Commits _ _ (
        gets-Commits _ _ (
          bind-Commits {P = λ _ u. IsConsistent u.db} _ _
            (select_relevant-Keeps (find_required_domains_for_definition definition_id t) _ kt)
            (λ _ _ ku. pure-Commits _ ku)))

  already_accepted_result-Keeps :
      (durable : DurableRunAttempt) → Keeps (already_accepted_result c durable a) s
  unfolding already_accepted_result
  already_accepted_result-Keeps durable = require-Commits _ _ λ _. pure-Commits _ k

-- Beginning a dispatch keeps the tables consistent.
pub begin_dispatch_transaction-Keeps :
    (durable : DurableRunAttempt) (s : Env)
    → IsConsistent s.db
    → Keeps (begin_dispatch_transaction durable) s
unfolding begin_dispatch_transaction
begin_dispatch_transaction-Keeps durable s k = gets-Commits _ _ (
    or_throw-Commits _ _ λ c found.
      let rows = lock_dispatch_context-ContextRows durable.job_id s c found in
      require-Commits _ _ λ _. gets-Commits _ _ (
        or_throw-Commits _ _ λ snapshot_id _. or_throw-Commits _ _ λ definition_id _.
          require-Commits _ _ λ _. gets-Commits _ _ (
            or_throw-Commits _ _ λ a found_active.
              let (ma, owned, _) = lock_active_execution_attempt-mem c.job_id s found_active in
              let owner = owned ∙ rows.read_id in
              require-Commits _ _ λ _.
                if_Commits (a.status == accepted)
                  (λ _. already_accepted_result-Keeps rows k ma owner durable)
                  (λ _. dispatch_active-Keeps rows k ma owner snapshot_id definition_id))))

-- Recording an answer keeps the tables consistent.
pub record_outcome_transaction-Keeps :
    (command : DispatchCommand) (outcome : DispatchResult) (s : Env)
    → IsConsistent s.db
    → Keeps (record_outcome_transaction command outcome) s
unfolding record_outcome_transaction
record_outcome_transaction-Keeps command outcome s k = gets-Commits _ _ (
    or_throw-Commits _ _ λ c found.
      let rows = lock_dispatch_context-ContextRows command.job_id s c found in
      gets-Commits _ _ (
        or_throw-Commits _ _ λ a found_attempt.
          let (ma, _) = lock_execution_attempt-mem command.execution_attempt_id s found_attempt in
          require-Commits _ _ λ owned.
            let owner = eq_of_== owned ∙ sym rows.asked in
            require-Commits _ _ λ _. gets-Commits _ _ (
              gets-Commits _ _ (
                or_throw-Commits _ _ λ status _. require-Commits _ _ λ _.
                  if_Commits (is_terminal_attempt a.status)
                    (λ _. late_outcome-Keeps rows k ma owner command status outcome)
                    (λ _. open_outcome-Keeps rows k ma owner command status outcome)))))
