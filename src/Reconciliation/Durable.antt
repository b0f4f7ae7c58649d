-- ===== src/Reconciliation/Durable.antt =====
-- modules/calculation-job-reconciliation.service.ts: what a reconciliation answers, beside what the tables
-- hold.
use cost_engine_orchestratio.Base.{
  String, ◌≡◌, refl, sym, ap, subst, ◌∙◌, Bool, true, ◌&&◌, Option, some, Memᴰ, ◌==◌, nat_eq,
  string_eq, option_eq, eq_of_==, ==-refl, find_row,
}
use cost_engine_orchestratio.Base.Query.{>>=-eq-some}
use cost_engine_orchestratio.Base.Rows.{find_row-mem, update_rows-hit}
use cost_engine_orchestratio.Exec.Commits.{
  Returns, Commits, pure-Commits, throw-Commits, bind-Commits, anything-Commits, if_Commits,
  gets-Commits, or_throw-Commits, require-Commits,
}
use cost_engine_orchestratio.Store.Status.{
  JobStatus, running, AttemptStatus, dispatching, accepted, dataset_status_eq, job_status_eq,
  attempt_status_eq, definition_status_eq, is_terminal_attempt,
}
use cost_engine_orchestratio.Store.Tables.{ExecutionAttempt}
use cost_engine_orchestratio.Store.Transaction.{Env}
use cost_engine_orchestratio.Store.Rollback.{with_transaction-Returns}
use cost_engine_orchestratio.Store.Updates.{update_attempts-Commits, update_jobs-Commits}
use cost_engine_orchestratio.Exec.{gets}
use cost_engine_orchestratio.Dispatch.Run.{Executor, on_env}
use cost_engine_orchestratio.Dispatch.RunHeld.{on_env-Commits}
use cost_engine_orchestratio.Dispatch.Lookups.{lock_execution_attempt-mem}
use cost_engine_orchestratio.Dispatch.Repository.{lock_execution_attempt, is_dispatchable, coalesce}
use cost_engine_orchestratio.Dispatch.Durable.{AttemptKey, key_of, AttemptHas, JobIs, attempt_kept}
use cost_engine_orchestratio.Reconciliation.Repository.{
  AttemptContext, LockedJob, Terminal, attempt_status_of, job_status_of, load_attempt_context,
  transition_dispatching_attempt_to_accepted, transition_attempt_to_terminal,
  transition_job_to_running, transition_job_to_terminal,
}
use cost_engine_orchestratio.Reconciliation.Service.{
  Report, still_running, terminal, ReconciliationResult, result_from_durable_state, report_of,
  confirm_terminal, terminalize, recover_dispatching, finish_accepted, apply_to_open,
  reconciliation_transaction, apply_reconciliation, reconcile_execution_attempt_service,
}
use cost_engine_orchestratio.Reconciliation.Safety.{JobRows, lock_reconciliation_job-JobRows}

abbrev pub context_key : AttemptContext → AttemptKey
context_key c = record {
  id = c.execution_attempt_id;
  attempt_number = c.attempt_number;
  airflow_dag_id = c.airflow_dag_id;
  airflow_dag_run_id = c.airflow_dag_run_id;
  job_id = c.job_id;
}

abbrev pub reconciled_key : ReconciliationResult → AttemptKey
reconciled_key r = record {
  id = r.execution_attempt_id;
  attempt_number = r.attempt_number;
  airflow_dag_id = r.airflow_dag_id;
  airflow_dag_run_id = r.airflow_dag_run_id;
  job_id = r.job_id;
}

-- The result is of the attempt that was asked for; its attempt and its job are what the tables hold.
abbrev pub Reconciled : String → ReconciliationResult → Env → Type 0
Reconciled asked r t =
    (r.execution_attempt_id ≡ asked)
    × AttemptHas (reconciled_key r) r.attempt_status t.db.attempts
    × JobIs r.job_id r.job_status t.db.jobs

-- The context that is read again is that of the locked attempt.
current_key :
    (asked : String) (s : Env) {a : ExecutionAttempt} {current : AttemptContext}
    → lock_execution_attempt asked s ≡ some a
    → load_attempt_context a.id s ≡ some current
    → key_of a ≡ context_key current
unfolding lock_execution_attempt load_attempt_context
current_key asked s {a} {current} locked loaded =
    let (a', ea, h1) = >>=-eq-some (find_row (λ x. x.id == a.id) s.db.attempts) _ loaded in
    let (j, ej, h2) = >>=-eq-some (find_row (λ j. j.id == a'.job_id) s.db.jobs) _ h1 in
    let (v, ev, h3) =
      >>=-eq-some (find_row (λ v. v.id == j.dataset_version_id) s.db.versions) _ h2 in
    let known : a.id ≡ asked =
      eq_of_== (find_row-mem (λ x. x.id == asked) s.db.attempts locked).1 in
    let again =
      subst (λ (i : String). find_row (λ x. x.id == i) s.db.attempts ≡ some a) (sym known) locked in
    let same : a' ≡ a = some_attempt (sym ea ∙ again) in
    let owner : j.id ≡ a'.job_id =
      eq_of_== (find_row-mem (λ j. j.id == a'.job_id) s.db.jobs ej).1 in
    let read : record (key_of a') { job_id = j.id } ≡ context_key current =
      ap context_key (some_context h3) in
    ap key_of (sym same) ∙ ap (λ (i : String). record (key_of a') { job_id = i }) (sym owner) ∙ read
  where
    some_attempt :
        {x y : ExecutionAttempt} → ◌≡◌ {A = Option ExecutionAttempt} (some x) (some y) → x ≡ y
    some_attempt e = cc

    some_context :
        {x y : AttemptContext} → ◌≡◌ {A = Option AttemptContext} (some x) (some y) → x ≡ y
    some_context e = cc

module _ {id : String} {s : Env} {l : LockedJob} (rows : JobRows id s l) {a : ExecutionAttempt}
    (ma : Memᴰ a s.db.attempts) (owner : a.job_id ≡ rows.job.id) (current : AttemptContext)
    (key : key_of a ≡ context_key current) (attempt_id : String)
    (requested : a.id ≡ attempt_id) where
  result-Reconciled :
      {t : Env} (u : JobStatus) (p : AttemptStatus) (report : Report)
      → AttemptHas (context_key current) p t.db.attempts
      → JobIs current.job_id u t.db.jobs
      → Commits (Reconciled attempt_id) (result_from_durable_state current u p report) t
  unfolding result_from_durable_state
  result-Reconciled u p report h j =
      require-Commits _ _
        λ _. pure-Commits _ (sym (ap (λ (k : AttemptKey). k.id) key) ∙ requested, h, j)

  own_job : rows.job.id ≡ current.job_id
  own_job = sym owner ∙ ap (λ (k : AttemptKey). k.job_id) key

  attempt_as : (p : AttemptStatus) → a.status ≡ p → AttemptHas (context_key current) p s.db.attempts
  attempt_as p e = record { row = a; row_in = ma; has_key = key; in_status = e }

  job_as : (u : JobStatus) → l.job_status ≡ u → JobIs current.job_id u s.db.jobs
  job_as u e = record {
    row = rows.job;
    row_in = rows.job_in;
    has_id = own_job;
    in_status = sym rows.read_status ∙ e;
  }

  job_hit :
      (test : JobStatus → Bool)
      → test l.job_status ≡ true
      → (rows.job.id == l.job_id && test rows.job.status) ≡ true
  job_hit test passes = rw (sym rows.read_id, sym rows.read_status, ==-refl l.job_id) passes

  terminalize-Reconciled :
      (expected : AttemptStatus) (test : JobStatus → Bool) (t : Terminal)
      → a.status ≡ expected
      → test l.job_status ≡ true
      → Commits (Reconciled attempt_id) (terminalize current l a expected test t) s
  unfolding terminalize transition_attempt_to_terminal transition_job_to_terminal
  terminalize-Reconciled expected test t at passes = update_attempts-Commits _ _ _ λ _.
      update_jobs-Commits _ _ _ λ _. require-Commits _ _ λ _.
        result-Reconciled (job_status_of t) (attempt_status_of t) (terminal t)
          (attempt_kept {ats = s.db.attempts} (context_key current) expected _ ma key at
            (λ _. refl))
          (record {
            row = record rows.job { status = job_status_of t; finished_at = some s.now };
            row_in = update_rows-hit _ _ s.db.jobs rows.job_in (job_hit test passes);
            has_id = own_job;
            in_status = refl;
          })

  recover_dispatching-Reconciled :
      (report : Report)
      → a.status ≡ dispatching
      → Commits (Reconciled attempt_id) (recover_dispatching current l a report) s
  unfolding recover_dispatching transition_dispatching_attempt_to_accepted transition_job_to_running
  recover_dispatching-Reconciled still_running at = require-Commits _ _ λ ready.
      update_attempts-Commits _ _ _ λ _. update_jobs-Commits _ _ _ λ _. require-Commits _ _ λ _.
        result-Reconciled running accepted still_running
          (attempt_kept {ats = s.db.attempts} (context_key current) dispatching _ ma key at
            (λ _. refl))
          (record {
            row = record rows.job {
              status = running;
              started_at = coalesce rows.job.started_at s.now;
            };
            row_in = update_rows-hit _ _ s.db.jobs rows.job_in (job_hit is_dispatchable ready);
            has_id = own_job;
            in_status = refl;
          })
  recover_dispatching-Reconciled (terminal t) at =
      require-Commits _ _ λ ready. terminalize-Reconciled dispatching is_dispatchable t at ready

  finish_accepted-Reconciled :
      (report : Report)
      → a.status ≡ accepted
      → Commits (Reconciled attempt_id) (finish_accepted current l a report) s
  unfolding finish_accepted
  finish_accepted-Reconciled still_running at = require-Commits _ _ λ ready.
      result-Reconciled running accepted still_running (attempt_as accepted at)
        (job_as running (eq_of_== ⦃e = job_status_eq⦄ ready))
  finish_accepted-Reconciled (terminal t) at =
      require-Commits _ _ λ ready. terminalize-Reconciled accepted (λ u. u == running) t at ready

  apply_to_open-Reconciled :
      (newer : Bool) (report : Report)
      → Commits (Reconciled attempt_id) (apply_to_open current l a newer report) s
  unfolding apply_to_open
  apply_to_open-Reconciled newer report = require-Commits _ _ λ _. require-Commits _ _ λ _.
      if_Commits (a.status == dispatching)
        (λ at. recover_dispatching-Reconciled report (eq_of_== ⦃e = attempt_status_eq⦄ at))
        (λ _.
          if_Commits (a.status == accepted)
            (λ at. finish_accepted-Reconciled report (eq_of_== ⦃e = attempt_status_eq⦄ at))
            (λ _. throw-Commits _))

  confirm_terminal-Reconciled :
      (phase_a : AttemptContext) (newer : Bool) (report : Report)
      → Commits (Reconciled attempt_id) (confirm_terminal phase_a current l a newer report) s
  unfolding confirm_terminal
  confirm_terminal-Reconciled phase_a newer report = require-Commits _ _ λ _.
      require-Commits _ _ λ _. require-Commits _ _ λ _.
        result-Reconciled l.job_status a.status (report_of a.status) (attempt_as a.status refl)
          (job_as l.job_status refl)

-- Whenever the application of a report returns, whatever the report, its answer is of the attempt of the
-- context, and the tables hold this attempt with the number, run ids, job and status that it answers, and
-- the job with the status that it answers.
pub apply_reconciliation-Reconciled :
    (phase_a : AttemptContext) (report : Report) (s : Env)
    → Returns (Reconciled phase_a.execution_attempt_id) (apply_reconciliation phase_a report s)
unfolding apply_reconciliation reconciliation_transaction
apply_reconciliation-Reconciled phase_a report s = with_transaction-Returns _ s (
    gets-Commits _ _ (
      or_throw-Commits _ _ λ l found.
        let rows = lock_reconciliation_job-JobRows phase_a.job_id s l found in
        gets-Commits _ _ (
          or_throw-Commits _ _ λ a found_attempt.
            let (ma, asked) =
              lock_execution_attempt-mem phase_a.execution_attempt_id s found_attempt in
            require-Commits _ _ λ owned.
              let owner = eq_of_== owned ∙ rows.read_id in
              require-Commits _ _ λ _. gets-Commits _ _ (
                or_throw-Commits _ _ λ current loaded. gets-Commits _ _ (
                  let key = current_key phase_a.execution_attempt_id s found_attempt loaded in
                  if_Commits (is_terminal_attempt a.status)
                    (λ _.
                      confirm_terminal-Reconciled rows ma owner current key _ asked phase_a _
                        report)
                    (λ _. apply_to_open-Reconciled rows ma owner current key _ asked _ report))))))

loaded_id :
    (attempt_id : String) (s : Env) {c : AttemptContext}
    → load_attempt_context attempt_id s ≡ some c
    → c.execution_attempt_id ≡ attempt_id
unfolding load_attempt_context
loaded_id attempt_id s {c} loaded =
    let (a, ea, h1) = >>=-eq-some (find_row (λ x. x.id == attempt_id) s.db.attempts) _ loaded in
    let (j, ej, h2) = >>=-eq-some (find_row (λ j. j.id == a.job_id) s.db.jobs) _ h1 in
    let (v, ev, h3) =
      >>=-eq-some (find_row (λ v. v.id == j.dataset_version_id) s.db.versions) _ h2 in
    let known : a.id ≡ attempt_id =
      eq_of_== (find_row-mem (λ x. x.id == attempt_id) s.db.attempts ea).1 in
    let read : a.id ≡ c.execution_attempt_id = same_id h3 in sym read ∙ known
  where
    same_id :
        {x y : AttemptContext}
        → ◌≡◌ {A = Option AttemptContext} (some x) (some y)
        → x.execution_attempt_id ≡ y.execution_attempt_id
    same_id e = cc

loaded_now :
    (attempt_id : String) (s : Env)
    → Returns
        (λ o _. o ≡ load_attempt_context attempt_id s)
        (gets (load_attempt_context attempt_id) s)
unfolding gets
loaded_now attempt_id s = refl

module _ {X : Type 0} (executor : Executor X) where
  attempt_service-Reconciled :
      (attempt_id : String) (p : Env × X)
      → Commits
          (λ r q. Reconciled attempt_id r q.0)
          (reconcile_execution_attempt_service executor attempt_id)
          p
  unfolding reconcile_execution_attempt_service
  attempt_service-Reconciled attempt_id (s, x) =
      bind-Commits _ _
        (on_env-Commits (λ o _. o ≡ load_attempt_context attempt_id s) _ (s, x)
          (loaded_now attempt_id s))
        λ found q same. or_throw-Commits _ _ λ c e. require-Commits _ _ λ _.
          require-Commits _ _ λ _. bind-Commits _ _ (anything-Commits _) λ status u _.
            or_throw-Commits _ _ λ report _.
              subst
                (λ (i : String).
                  Commits (λ r q. Reconciled i r q.0) (on_env (apply_reconciliation c report)) u)
                (loaded_id attempt_id s (sym same ∙ e))
                (on_env-Commits _ _ u (apply_reconciliation-Reconciled c report u.0))

  -- Whenever the reconciliation of an attempt returns, whatever the executor answers, its answer is of this
  -- attempt, and the tables hold the attempt with the number, run ids, job and status that it answers, and
  -- the job with the status that it answers.
  pub reconcile_execution_attempt_service-Reconciled :
      (attempt_id : String) (p : Env × X)
      → Returns
          (λ r q. Reconciled attempt_id r q.0)
          (reconcile_execution_attempt_service executor attempt_id p)
  reconcile_execution_attempt_service-Reconciled attempt_id p =
      (attempt_service-Reconciled attempt_id p).holds
