-- ===== src/Dispatch/Durable.antt =====
-- modules/calculation-job-run.service.ts: what recordDispatchOutcome answers, beside what the tables
-- hold.
use cost_engine_orchestratio.Base.{
  ℕ, String, ◌≡◌, refl, sym, ap, subst, ◌∙◌, true, ◌&&◌, none, some, List, Memᴰ, ◌==◌, nat_eq,
  string_eq, option_eq, eq_of_==, ==-refl, and-true, update_rows,
}
use cost_engine_orchestratio.Exec.Commits.{
  Returns, Commits, pure-Commits, if_Commits, gets-Commits, or_throw-Commits, require-Commits,
}
use cost_engine_orchestratio.Store.Status.{
  DatasetStatus, JobStatus, running, AttemptStatus, dispatching, accepted, dispatch_failed,
  dataset_status_eq, job_status_eq, attempt_status_eq, definition_status_eq, is_terminal_attempt,
}
use cost_engine_orchestratio.Store.Tables.{CalculationJob, ExecutionAttempt}
use cost_engine_orchestratio.Store.Transaction.{Env}
use cost_engine_orchestratio.Store.Updates.{update_attempts-Commits, update_jobs-Commits}
use cost_engine_orchestratio.Dispatch.Lookups.{
  ContextRows, lock_dispatch_context-ContextRows, lock_execution_attempt-mem,
}
use cost_engine_orchestratio.Dispatch.Types.{
  DispatchCommand, DispatchResult, dispatch_accepted, already_exists, dispatch_rejected,
  dispatch_unknown, RunDispatchOutcome, outcome_accepted, outcome_already_exists, DispatchContext,
  RunResult, RecordOutcomeResult, recorded, rejection,
}
use cost_engine_orchestratio.Dispatch.Repository.{
  is_dispatchable, mark_execution_attempt_accepted, mark_calculation_job_running,
  mark_execution_attempt_dispatch_failed, record_unknown_dispatch_diagnostic, coalesce, has_status,
}
use cost_engine_orchestratio.Dispatch.Service.{accepted_result}
use cost_engine_orchestratio.Consistency.Status.{has_status-hit}
use cost_engine_orchestratio.Dispatch.Recording.{
  same_identity, late_outcome, confirm_dispatch, reject_dispatch, note_unknown_dispatch,
  record_by_outcome, open_outcome, record_outcome_transaction, record_dispatch_outcome,
}
use cost_engine_orchestratio.Store.Rollback.{with_transaction-Returns}
use cost_engine_orchestratio.Base.Rows.{update_rows-hit}

-- An attempt with the id has the status; so does a job.
pub record AttemptIs (id : String) (status : AttemptStatus) (ats : List ExecutionAttempt)
    : Type 0 where
  pub row : ExecutionAttempt
  pub row_in : Memᴰ row ats
  pub has_id : row.id ≡ id
  pub in_status : row.status ≡ status

pub record JobIs (id : String) (status : JobStatus) (js : List CalculationJob) : Type 0 where
  pub row : CalculationJob
  pub row_in : Memᴰ row js
  pub has_id : row.id ≡ id
  pub in_status : row.status ≡ status

-- what identifies an attempt: its id, number, run of the executor and job
pub record AttemptKey : Type 0 where
  pub id : String
  pub attempt_number : ℕ
  pub airflow_dag_id : String
  pub airflow_dag_run_id : String
  pub job_id : String

abbrev pub key_of : ExecutionAttempt → AttemptKey
key_of a = record {
  id = a.id;
  attempt_number = a.attempt_number;
  airflow_dag_id = a.airflow_dag_id;
  airflow_dag_run_id = a.airflow_dag_run_id;
  job_id = a.job_id;
}

abbrev pub result_key : RunResult → AttemptKey
result_key r = record {
  id = r.execution_attempt_id;
  attempt_number = r.attempt_number;
  airflow_dag_id = r.airflow_dag_id;
  airflow_dag_run_id = r.airflow_dag_run_id;
  job_id = r.job_id;
}

abbrev pub command_key : DispatchCommand → AttemptKey
command_key c = record {
  id = c.execution_attempt_id;
  attempt_number = c.attempt_number;
  airflow_dag_id = c.airflow_dag_id;
  airflow_dag_run_id = c.airflow_dag_run_id;
  job_id = c.job_id;
}

-- An attempt with the key has the status; a job with the id, of the version, has the status.
pub record AttemptHas (key : AttemptKey) (status : AttemptStatus) (ats : List ExecutionAttempt)
    : Type 0 where
  pub row : ExecutionAttempt
  pub row_in : Memᴰ row ats
  pub has_key : key_of row ≡ key
  pub in_status : row.status ≡ status

pub record JobHas (id version_id : String) (status : JobStatus) (js : List CalculationJob)
    : Type 0 where
  pub row : CalculationJob
  pub row_in : Memᴰ row js
  pub has_id : row.id ≡ id
  pub of_version : row.dataset_version_id ≡ version_id
  pub in_status : row.status ≡ status

-- The attempt and the job of a result are what the tables hold.
abbrev pub Held : RunResult → Env → Type 0
Held r t =
    AttemptHas (result_key r) r.attempt_status t.db.attempts
    × JobHas r.job_id r.dataset_version_id r.job_status t.db.jobs

-- The answer to the outcome of a command is what the tables hold.
abbrev pub Answered : DispatchCommand → RecordOutcomeResult → Env → Type 0
Answered c (recorded r) t = Held r t
Answered c rejection t = AttemptHas (command_key c) dispatch_failed t.db.attempts

pub attempt_updated :
    {ats : List ExecutionAttempt} {a : ExecutionAttempt} (id : String) (p : AttemptStatus)
    (fa : ExecutionAttempt → ExecutionAttempt)
    → Memᴰ a ats
    → a.id ≡ id
    → a.status ≡ p
    → ((b : ExecutionAttempt) → (fa b).id ≡ b.id)
    → AttemptIs id (fa a).status (update_rows (has_status a.id p) fa ats)
attempt_updated {ats} {a} id p fa ma e at keys = record {
  row = fa a;
  row_in = update_rows-hit (has_status a.id p) fa ats ma (has_status-hit a at);
  has_id = keys a ∙ e;
  in_status = refl;
}

pub attempt_kept :
    {ats : List ExecutionAttempt} {a : ExecutionAttempt} (key : AttemptKey) (p : AttemptStatus)
    (fa : ExecutionAttempt → ExecutionAttempt)
    → Memᴰ a ats
    → key_of a ≡ key
    → a.status ≡ p
    → ((b : ExecutionAttempt) → key_of (fa b) ≡ key_of b)
    → AttemptHas key (fa a).status (update_rows (has_status a.id p) fa ats)
attempt_kept {ats} {a} key p fa ma e at keys = record {
  row = fa a;
  row_in = update_rows-hit (has_status a.id p) fa ats ma (has_status-hit a at);
  has_key = keys a ∙ e;
  in_status = refl;
}

module _ (command : DispatchCommand) {s : Env} {c : DispatchContext}
    (rows : ContextRows command.job_id s c) {a : ExecutionAttempt} (ma : Memᴰ a s.db.attempts)
    (asked : key_of a ≡ command_key command)
    (version : rows.job.dataset_version_id ≡ command.dataset_version_id) where
  job_now :
      (u : JobStatus)
      → c.job_status ≡ u
      → JobHas command.job_id command.dataset_version_id u s.db.jobs
  job_now u e = record {
    row = rows.job;
    row_in = rows.job_in;
    has_id = rows.asked;
    of_version = version;
    in_status = sym rows.read_status ∙ e;
  }

  attempt_now :
      (key : AttemptKey) (u : AttemptStatus)
      → key_of a ≡ key
      → a.status ≡ u
      → AttemptHas key u s.db.attempts
  attempt_now key u i e = record { row = a; row_in = ma; has_key = i; in_status = e }

  at_dispatching :
      (a.status == dispatching && is_dispatchable c.job_status) ≡ true → a.status ≡ dispatching
  at_dispatching h = eq_of_== ⦃e = attempt_status_eq⦄ (and-true h).0

  late_outcome-Answered :
      (dataset_status : DatasetStatus) (outcome : DispatchResult)
      → Commits (Answered command) (late_outcome command c a dataset_status outcome) s
  unfolding late_outcome
  late_outcome-Answered dataset_status outcome = require-Commits _ _ λ _.
      or_throw-Commits _ _ λ _ _. gets-Commits _ _ (
        require-Commits _ _ λ _. pure-Commits _ (
          attempt_now (record (key_of a) { job_id = command.job_id }) a.status
              (ap (λ (k : AttemptKey). record (key_of a) { job_id = k.job_id }) asked) refl,
          job_now c.job_status refl,
        ))

  confirm_dispatch-Answered :
      (outcome : RunDispatchOutcome)
      → Commits (Answered command) (confirm_dispatch command c a outcome) s
  unfolding confirm_dispatch mark_execution_attempt_accepted mark_calculation_job_running
      accepted_result
  confirm_dispatch-Answered outcome = require-Commits _ _ λ ready.
      update_attempts-Commits _ _ _ λ _. update_jobs-Commits _ _ _ λ _. require-Commits _ _ λ _.
        pure-Commits _ (
          attempt_kept {ats = s.db.attempts} (command_key command) dispatching
              (λ b. record b {
                status = accepted;
                accepted_at = some s.now;
                last_dispatch_error = none;
              })
              ma asked (at_dispatching ready) (λ _. refl),
          record {
            row = record rows.job {
              status = running;
              started_at = coalesce rows.job.started_at s.now;
            };
            row_in =
                update_rows-hit _ _ s.db.jobs rows.job_in (
                  rw (sym rows.read_id, sym rows.read_status, ==-refl c.job_id) (and-true ready).1);
            has_id = rows.asked;
            of_version = version;
            in_status = refl;
          },
        )

  reject_dispatch-Answered :
      (message : String) → Commits (Answered command) (reject_dispatch c a message) s
  unfolding reject_dispatch mark_execution_attempt_dispatch_failed
  reject_dispatch-Answered message =
      if_Commits (a.status == dispatch_failed && is_dispatchable c.job_status)
        (λ h. pure-Commits _ (
          attempt_now (command_key command) dispatch_failed asked
            (eq_of_== ⦃e = attempt_status_eq⦄ (and-true h).0)))
        λ _. require-Commits _ _ λ ready. update_attempts-Commits _ _ _ λ _.
          require-Commits _ _ λ _. pure-Commits _ (
            attempt_kept {ats = s.db.attempts} (command_key command) dispatching _ ma asked
              (at_dispatching ready) (λ _. refl))

  note_unknown_dispatch-Answered :
      (message : String) → Commits (Answered command) (note_unknown_dispatch command c a message) s
  unfolding note_unknown_dispatch record_unknown_dispatch_diagnostic
  note_unknown_dispatch-Answered message = require-Commits _ _ λ ready.
      update_attempts-Commits _ _ _ λ _. require-Commits _ _ λ _. pure-Commits _ (
        subst
            (λ (u : AttemptStatus). AttemptHas (command_key command) u (
              update_rows (has_status a.id dispatching)
                (λ b. record b { last_dispatch_error = some message }) s.db.attempts))
            (at_dispatching ready)
            (attempt_kept {ats = s.db.attempts} (command_key command) dispatching _ ma asked
              (at_dispatching ready) (λ _. refl)),
        job_now c.job_status refl,
      )

  record_by_outcome-Answered :
      (outcome : DispatchResult)
      → Commits (Answered command) (record_by_outcome command c a outcome) s
  unfolding record_by_outcome
  record_by_outcome-Answered dispatch_accepted = confirm_dispatch-Answered outcome_accepted
  record_by_outcome-Answered already_exists = confirm_dispatch-Answered outcome_already_exists
  record_by_outcome-Answered (dispatch_rejected message) = reject_dispatch-Answered message
  record_by_outcome-Answered (dispatch_unknown message) = note_unknown_dispatch-Answered message

  open_outcome-Answered :
      (dataset_status : DatasetStatus) (outcome : DispatchResult)
      → Commits (Answered command) (open_outcome command c a dataset_status outcome) s
  unfolding open_outcome accepted_result
  open_outcome-Answered dataset_status outcome = require-Commits _ _ λ _.
      if_Commits (a.status == accepted && c.job_status == running)
        (λ h. pure-Commits _ (
          attempt_now (command_key command) accepted asked
              (eq_of_== ⦃e = attempt_status_eq⦄ (and-true h).0),
          job_now running (eq_of_== ⦃e = job_status_eq⦄ (and-true h).1),
        ))
        λ _. record_by_outcome-Answered outcome

same_key :
    (c : DispatchCommand) (context : DispatchContext) (a : ExecutionAttempt)
    → a.id ≡ c.execution_attempt_id
    → (a.job_id == c.job_id) ≡ true
    → same_identity c context a ≡ true
    → key_of a ≡ command_key c
same_key c context a id job same =
    let runs = (and-true (and-true (and-true same).0).0).0 in
    let dag : a.airflow_dag_id ≡ c.airflow_dag_id = eq_of_== (and-true (and-true runs).0).0 in
    let run : a.airflow_dag_run_id ≡ c.airflow_dag_run_id =
      eq_of_== (and-true (and-true runs).0).1 in
    let number : a.attempt_number ≡ c.attempt_number = eq_of_== (and-true runs).1 in
    let of_job : a.job_id ≡ c.job_id = eq_of_== job in rw (id, dag, run, number, of_job) refl

same_version :
    (c : DispatchCommand) (context : DispatchContext) (a : ExecutionAttempt) {s : Env}
    (rows : ContextRows c.job_id s context)
    → same_identity c context a ≡ true
    → rows.job.dataset_version_id ≡ c.dataset_version_id
same_version c context a rows same =
    sym rows.read_version ∙ eq_of_== (and-true (and-true (and-true same).0).0).1

-- Whenever the recording of an outcome returns a result, the tables hold the attempt with the id, number,
-- run ids and status that it answers, as an attempt of the job that it answers, and that job with the
-- version and status that it answers; when it returns a rejection, the command's attempt, with the
-- command's number, run ids and job, is DISPATCH_FAILED.
pub record_dispatch_outcome-Answered :
    (c : DispatchCommand) (outcome : DispatchResult) (s : Env)
    → Returns (Answered c) (record_dispatch_outcome c outcome s)
unfolding record_dispatch_outcome record_outcome_transaction
record_dispatch_outcome-Answered command outcome s = with_transaction-Returns _ s (
    gets-Commits _ _ (
      or_throw-Commits _ _ λ c found.
        let rows = lock_dispatch_context-ContextRows command.job_id s c found in
        gets-Commits _ _ (
          or_throw-Commits _ _ λ a found_attempt.
            let (ma, asked) =
              lock_execution_attempt-mem command.execution_attempt_id s found_attempt in
            require-Commits _ _ λ of_job. require-Commits _ _ λ same. gets-Commits _ _ (
              gets-Commits _ _ (
                or_throw-Commits _ _ λ dataset_status _. require-Commits _ _ λ _.
                  if_Commits (is_terminal_attempt a.status)
                    (λ _.
                      late_outcome-Answered command rows ma (same_key command c a asked of_job same)
                        (same_version command c a rows same) dataset_status outcome)
                    (λ _.
                      open_outcome-Answered command rows ma (same_key command c a asked of_job same)
                        (same_version command c a rows same) dataset_status outcome))))))
