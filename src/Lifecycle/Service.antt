-- ===== src/Lifecycle/Service.antt =====
-- modules/dataset-version/dataset-version-lifecycle.repository.ts and .service.ts: submission for
-- validation, publication, rejection and abandonment, each a transaction.
use cost_engine_orchestratio.Base.{
  ℕ, String, Bool, not, ◌&&◌, ◌||◌, Option, none, some, List, if◌then◌else◌, ◌==◌, ◌/=◌, nat_eq,
  string_eq, option_eq, length, select, find_row, any_row, all_rows, count_rows,
}
use cost_engine_orchestratio.Errors.{
  dataset_version_not_found, dataset_not_ready_for_validation, dataset_has_active_execution,
  dataset_state_conflict, dataset_state_invariant,
}
use cost_engine_orchestratio.Exec.{pure, gets, or_throw, require, ◌>>=◌, ◌>>◌}
use cost_engine_orchestratio.Store.Status.{
  DatasetStatus, draft, building, validating, published, rejected, abandoned, running, succeeded,
  accepted, dataset_status_eq, job_status_eq, attempt_status_eq, definition_status_eq,
  is_active_attempt,
}
use cost_engine_orchestratio.Store.Tables.{DatasetVersion, CalculationJob, ExecutionAttempt}
use cost_engine_orchestratio.Store.Transaction.{Env, Action, with_transaction}
use cost_engine_orchestratio.Store.Updates.{update_versions}

pub record LifecycleDataset : Type 0 where
  pub series_id : String
  pub dataset_version_id : String
  pub version : ℕ
  pub dataset_status : DatasetStatus

unfoldable pub read_dataset_series_id : String → Env → Option String
read_dataset_series_id version_id s = elim (find_row (λ v. v.id == version_id) s.db.versions) [
  | none ↦ none
  | some v ↦ some v.series_id
]

unfoldable pub lock_lifecycle_series : String → Env → Bool
lock_lifecycle_series series_id s = count_rows (λ d. d.id == series_id) s.db.series == 1

unfoldable pub lock_lifecycle_dataset : String → Env → Option LifecycleDataset
lock_lifecycle_dataset version_id s = elim (find_row (λ v. v.id == version_id) s.db.versions) [
  | none ↦ none
  | some v ↦ some (record {
    series_id = v.series_id;
    dataset_version_id = v.id;
    version = v.version;
    dataset_status = v.status;
  })
]

-- Locked rows in the table's order: what is decided of them does not depend on it.
unfoldable pub lock_lifecycle_jobs : String → Env → List CalculationJob
lock_lifecycle_jobs version_id s = select (λ j. j.dataset_version_id == version_id) s.db.jobs

-- JOIN calculation_jobs cj ON cj.id = ea.calculation_job_id
unfoldable pub lock_lifecycle_attempts : String → Env → List ExecutionAttempt
lock_lifecycle_attempts version_id s =
    select (λ a. any_row (λ j. j.id == a.job_id && j.dataset_version_id == version_id) s.db.jobs)
      s.db.attempts

pub data LifecycleTarget : Type 0 where
  to_validating to_published to_rejected to_abandoned : LifecycleTarget

abbrev pub status_of_target : LifecycleTarget → DatasetStatus
status_of_target to_validating = validating
status_of_target to_published = published
status_of_target to_rejected = rejected
status_of_target to_abandoned = abandoned

-- the `sources` of the `transitions` table
abbrev pub is_source : LifecycleTarget → DatasetStatus → Bool
is_source to_validating status = status == building
is_source to_published status = status == validating
is_source to_rejected status = status == validating
is_source to_abandoned status = status == draft || status == building

-- the `timestamp` of the `transitions` table
abbrev pub stamped : LifecycleTarget → ℕ → DatasetVersion → DatasetVersion
stamped to_validating now v = record v { status = validating; validating_at = some now }
stamped to_published now v = record v { status = published; published_at = some now }
stamped to_rejected now v = record v { status = rejected; rejected_at = some now }
stamped to_abandoned now v = record v { status = abandoned; abandoned_at = some now }

unfoldable pub transition_lifecycle_dataset : String → LifecycleTarget → Action Bool
transition_lifecycle_dataset version_id target =
    update_versions (λ v. v.id == version_id && is_source target v.status) (stamped target)

-- `if (!b) invariant(…);`
abbrev pub dataset_invariant : Bool → Action (Unit {0})
dataset_invariant b = require b dataset_state_invariant

unfoldable pub apply_transition : LifecycleDataset → LifecycleTarget → Action LifecycleDataset
apply_transition d target = do
  transitioned ← transition_lifecycle_dataset d.dataset_version_id target
  dataset_invariant transitioned
  pure (record d { dataset_status = status_of_target target })

-- a SUCCEEDED job has an active attempt
abbrev pub has_active_of_succeeded : List CalculationJob → List ExecutionAttempt → Bool
has_active_of_succeeded jobs attempts =
    any_row
      (λ a.
        any_row (λ j. j.status == succeeded && j.id == a.job_id) jobs && is_active_attempt a.status)
      attempts

unfoldable pub submit_building : String → LifecycleDataset → Action LifecycleDataset
submit_building version_id d = do
  require (d.dataset_status /= draft) dataset_not_ready_for_validation
  require (d.dataset_status == building) dataset_state_conflict
  jobs ← gets (lock_lifecycle_jobs version_id)
  dataset_invariant (not (length jobs == 0))
  attempts ← gets (lock_lifecycle_attempts version_id)
  dataset_invariant (not (has_active_of_succeeded jobs attempts))
  require (all_rows (λ j. j.status == succeeded) jobs) dataset_not_ready_for_validation
  apply_transition d to_validating

unfoldable pub submit_validation_transaction : String → Action LifecycleDataset
submit_validation_transaction version_id = do
  found ← gets (lock_lifecycle_dataset version_id)
  d ← or_throw found (dataset_version_not_found version_id)
  if d.dataset_status == validating then pure d else submit_building version_id d

unfoldable pub submit_dataset_validation_service : String → Action LifecycleDataset
submit_dataset_validation_service version_id =
    with_transaction (submit_validation_transaction version_id)

unfoldable pub lock_terminal_decision_dataset : String → String → Action LifecycleDataset
lock_terminal_decision_dataset version_id series_id = do
  locked ← gets (lock_lifecycle_series series_id)
  dataset_invariant locked
  found ← gets (lock_lifecycle_dataset version_id)
  d ← or_throw found dataset_state_invariant
  dataset_invariant (d.series_id == series_id)
  pure d

-- PUBLISHED or REJECTED
pub data Decision : Type 0 where
  publish reject : Decision

abbrev pub target_of : Decision → LifecycleTarget
target_of publish = to_published
target_of reject = to_rejected

unfoldable pub decide_transaction : String → String → Decision → Action LifecycleDataset
decide_transaction version_id series_id decision = do
  d ← lock_terminal_decision_dataset version_id series_id
  if d.dataset_status == status_of_target (target_of decision) then pure d else (do
    require (d.dataset_status == validating) dataset_state_conflict
    apply_transition d (target_of decision))

unfoldable pub decide_validated_dataset : String → Decision → Action LifecycleDataset
decide_validated_dataset version_id decision = do
  found ← gets (read_dataset_series_id version_id)
  series_id ← or_throw found (dataset_version_not_found version_id)
  with_transaction (decide_transaction version_id series_id decision)

unfoldable pub publish_dataset_version_service : String → Action LifecycleDataset
publish_dataset_version_service version_id = decide_validated_dataset version_id publish

unfoldable pub reject_dataset_version_service : String → Action LifecycleDataset
reject_dataset_version_service version_id = decide_validated_dataset version_id reject

-- a RUNNING job has no ACCEPTED attempt
abbrev pub has_orphaned_running : List CalculationJob → List ExecutionAttempt → Bool
has_orphaned_running jobs attempts =
    any_row
      (λ j.
        j.status == running
        && not (any_row (λ a. a.job_id == j.id && a.status == accepted) attempts))
      jobs

unfoldable pub abandon_open : String → LifecycleDataset → Action LifecycleDataset
abandon_open version_id d = do
  require (d.dataset_status == draft || d.dataset_status == building) dataset_state_conflict
  jobs ← gets (lock_lifecycle_jobs version_id)
  dataset_invariant (not (length jobs == 0))
  attempts ← gets (lock_lifecycle_attempts version_id)
  dataset_invariant (not (has_orphaned_running jobs attempts))
  require (not (any_row (λ a. is_active_attempt a.status) attempts)) dataset_has_active_execution
  apply_transition d to_abandoned

unfoldable pub abandon_transaction : String → String → Action LifecycleDataset
abandon_transaction version_id series_id = do
  d ← lock_terminal_decision_dataset version_id series_id
  if d.dataset_status == abandoned then pure d else abandon_open version_id d

unfoldable pub abandon_dataset_version_service : String → Action LifecycleDataset
abandon_dataset_version_service version_id = do
  found ← gets (read_dataset_series_id version_id)
  series_id ← or_throw found (dataset_version_not_found version_id)
  with_transaction (abandon_transaction version_id series_id)
