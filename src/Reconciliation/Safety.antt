-- ===== src/Reconciliation/Safety.antt =====
-- modules/calculation-job-reconciliation.service.ts: applyReconciliation and the invariant of the
-- tables.
use cost_engine_orchestratio.Base.{
  String, ◌≡◌, refl, subst, ◌∙◌, Bool, true, false, some, Memᴰ, arith, ◌==◌, nat_eq, string_eq,
  option_eq, eq_of_==, find_row,
}
use cost_engine_orchestratio.Base.Rows.{find_row-mem}
use cost_engine_orchestratio.Exec.Commits.{
  pure-Commits, throw-Commits, if_Commits, gets-Commits, or_throw-Commits, require-Commits,
}
use cost_engine_orchestratio.Store.Status.{
  JobStatus, running, AttemptStatus, dispatching, accepted, dataset_status_eq, job_status_eq,
  attempt_status_eq, definition_status_eq, is_active_attempt, is_terminal_attempt,
}
use cost_engine_orchestratio.Store.Tables.{CalculationJob, ExecutionAttempt}
use cost_engine_orchestratio.Store.Transaction.{Env}
use cost_engine_orchestratio.Store.Updates.{update_attempts-Commits, update_jobs-Commits}
use cost_engine_orchestratio.Base.Query.{>>=-eq-some}
use cost_engine_orchestratio.Dispatch.Repository.{is_dispatchable}
use cost_engine_orchestratio.Consistency.Invariant.{compatible, IsConsistent}
use cost_engine_orchestratio.Consistency.Status.{both-Consistent}
use cost_engine_orchestratio.Consistency.Keeps.{Keeps, Stays, with_transaction-Stays}
use cost_engine_orchestratio.Dispatch.Lookups.{lock_execution_attempt-mem}
use cost_engine_orchestratio.Reconciliation.Repository.{
  AttemptContext, LockedJob, Terminal, success, failure, attempt_status_of, job_status_of,
  lock_reconciliation_job, transition_dispatching_attempt_to_accepted,
  transition_attempt_to_terminal, transition_job_to_running, transition_job_to_terminal,
}
use cost_engine_orchestratio.Reconciliation.Service.{
  Report, still_running, terminal, result_from_durable_state, report_of, confirm_terminal,
  terminalize, recover_dispatching, finish_accepted, apply_to_open, reconciliation_transaction,
  apply_reconciliation,
}
use cost_engine_orchestratio.Dispatch.Safety.{dispatchable-fits-others}

-- The job that `lock_reconciliation_job` read.
pub record JobRows (id : String) (s : Env) (l : LockedJob) : Type 0 where
  pub job : CalculationJob
  pub job_in : Memᴰ job s.db.jobs
  pub asked : job.id ≡ id
  pub read_id : l.job_id ≡ job.id
  pub read_status : l.job_status ≡ job.status

pub lock_reconciliation_job-JobRows :
    (id : String) (s : Env) (l : LockedJob) → lock_reconciliation_job id s ≡ some l → JobRows id s l
unfolding lock_reconciliation_job
lock_reconciliation_job-JobRows id s l h =
    let (j, ej, h1) = >>=-eq-some (find_row (λ j. j.id == id) s.db.jobs) _ h in
    let (v, ev, h2) =
      >>=-eq-some (find_row (λ v. v.id == j.dataset_version_id) s.db.versions) _ h1 in
    let (mj, ij) = find_row-mem (λ j. j.id == id) s.db.jobs ej in
    record { job = j; job_in = mj; asked = eq_of_== ij; read_id = cc; read_status = cc }

-- the moves of statuses that a terminal report makes
terminal-fits : (t : Terminal) → compatible (job_status_of t) (attempt_status_of t) ≡ true
terminal-fits success = refl
terminal-fits failure = refl

dispatchable-terminal-others :
    (t : Terminal) (u : JobStatus) (r : AttemptStatus)
    → is_dispatchable u ≡ true
    → is_active_attempt r ≡ false
    → compatible u r ≡ true
    → compatible (job_status_of t) r ≡ true
dispatchable-terminal-others t u r d i h = ground arith

running-terminal-others :
    (t : Terminal) (u : JobStatus) (r : AttemptStatus)
    → (u == running) ≡ true
    → is_active_attempt r ≡ false
    → compatible u r ≡ true
    → compatible (job_status_of t) r ≡ true
running-terminal-others t u r d i h = ground arith

module _ {id : String} {s : Env} {l : LockedJob} (rows : JobRows id s l) (k : IsConsistent s.db)
    {a : ExecutionAttempt} (ma : Memᴰ a s.db.attempts) (owner : a.job_id ≡ rows.job.id)
    (current : AttemptContext) where
  read_test : (test : JobStatus → Bool) → test l.job_status ≡ true → test rows.job.status ≡ true
  read_test test h = subst (λ (u : JobStatus). test u ≡ true) rows.read_status h

  result-Keeps :
      {t : Env} (u : JobStatus) (p : AttemptStatus) (report : Report)
      → IsConsistent t.db
      → Keeps (result_from_durable_state current u p report) t
  unfolding result_from_durable_state
  result-Keeps u p report kt = require-Commits _ _ λ _. pure-Commits _ kt

  terminalize-Keeps :
      (expected : AttemptStatus) (test : JobStatus → Bool) (t : Terminal)
      → is_active_attempt expected ≡ true
      → a.status ≡ expected
      → test rows.job.status ≡ true
      → ((r : AttemptStatus)
          → is_active_attempt r ≡ false
          → compatible rows.job.status r ≡ true
          → compatible (job_status_of t) r ≡ true)
      → Keeps (terminalize current l a expected test t) s
  unfolding terminalize transition_attempt_to_terminal transition_job_to_terminal
  terminalize-Keeps expected test t active at passes others = update_attempts-Commits _ _ _ λ _.
      update_jobs-Commits _ _ _ λ _. require-Commits _ _ λ _.
        result-Keeps (job_status_of t) (attempt_status_of t) (terminal t) (
          both-Consistent k ma rows.job_in owner expected active at _ (λ _. refl) (λ _. refl)
            rows.read_id test passes _ (λ _. refl) (λ _. refl) (terminal-fits t) others)

  recover_dispatching-Keeps :
      (report : Report) → a.status ≡ dispatching → Keeps (recover_dispatching current l a report) s
  unfolding recover_dispatching transition_dispatching_attempt_to_accepted transition_job_to_running
  recover_dispatching-Keeps still_running at = require-Commits _ _ λ ready.
      let was_open = read_test is_dispatchable ready in
      update_attempts-Commits _ _ _ λ _. update_jobs-Commits _ _ _ λ _. require-Commits _ _ λ _.
        result-Keeps running accepted still_running (
          both-Consistent k ma rows.job_in owner dispatching refl at _ (λ _. refl) (λ _. refl)
            rows.read_id is_dispatchable was_open _ (λ _. refl) (λ _. refl) refl
            (λ r idle h. dispatchable-fits-others rows.job.status r was_open idle h))
  recover_dispatching-Keeps (terminal t) at = require-Commits _ _ λ ready.
      let was_open = read_test is_dispatchable ready in
      terminalize-Keeps dispatching is_dispatchable t refl at was_open
        (λ r idle h. dispatchable-terminal-others t rows.job.status r was_open idle h)

  finish_accepted-Keeps :
      (report : Report) → a.status ≡ accepted → Keeps (finish_accepted current l a report) s
  unfolding finish_accepted
  finish_accepted-Keeps still_running at =
      require-Commits _ _ λ _. result-Keeps running accepted still_running k
  finish_accepted-Keeps (terminal t) at = require-Commits _ _ λ ready.
      let was_running = read_test (λ u. u == running) ready in
      terminalize-Keeps accepted (λ u. u == running) t refl at was_running
        (λ r idle h. running-terminal-others t rows.job.status r was_running idle h)

  apply_to_open-Keeps :
      (newer : Bool) (report : Report) → Keeps (apply_to_open current l a newer report) s
  unfolding apply_to_open
  apply_to_open-Keeps newer report = require-Commits _ _ λ _. require-Commits _ _ λ _.
      if_Commits (a.status == dispatching)
        (λ at. recover_dispatching-Keeps report (eq_of_== ⦃e = attempt_status_eq⦄ at))
        (λ _.
          if_Commits (a.status == accepted)
            (λ at. finish_accepted-Keeps report (eq_of_== ⦃e = attempt_status_eq⦄ at))
            (λ _. throw-Commits _))

  confirm_terminal-Keeps :
      (phase_a : AttemptContext) (newer : Bool) (report : Report)
      → Keeps (confirm_terminal phase_a current l a newer report) s
  unfolding confirm_terminal
  confirm_terminal-Keeps phase_a newer report = require-Commits _ _ λ _.
      require-Commits _ _
        λ _. require-Commits _ _ λ _. result-Keeps l.job_status a.status (report_of a.status) k

-- Applying a report keeps the tables consistent.
pub reconciliation_transaction-Keeps :
    (phase_a : AttemptContext) (report : Report) (s : Env)
    → IsConsistent s.db
    → Keeps (reconciliation_transaction phase_a report) s
unfolding reconciliation_transaction
reconciliation_transaction-Keeps phase_a report s k = gets-Commits _ _ (
    or_throw-Commits _ _ λ l found.
      let rows = lock_reconciliation_job-JobRows phase_a.job_id s l found in
      gets-Commits _ _ (
        or_throw-Commits _ _ λ a found_attempt.
          let (ma, _) = lock_execution_attempt-mem phase_a.execution_attempt_id s found_attempt in
          require-Commits _ _ λ owned.
            let owner = eq_of_== owned ∙ rows.read_id in
            require-Commits _ _ λ _. gets-Commits _ _ (
              or_throw-Commits _ _ λ current _. gets-Commits _ _ (
                if_Commits (is_terminal_attempt a.status)
                  (λ _. confirm_terminal-Keeps rows k ma owner current phase_a _ report)
                  (λ _. apply_to_open-Keeps rows k ma owner current _ report)))))

-- Whatever the report, applying it leaves consistent tables consistent.
pub apply_reconciliation-Stays :
    (phase_a : AttemptContext) (report : Report) → Stays (apply_reconciliation phase_a report)
unfolding apply_reconciliation
apply_reconciliation-Stays phase_a report =
    with_transaction-Stays _ (λ s k. reconciliation_transaction-Keeps phase_a report s k)
