-- ===== src/Consistency/Invariant.antt =====
-- The invariant of the tables of versions, jobs and attempts.
use cost_engine_orchestratio.Base.{
  ◌≡◌, Bool, true, false, ◌||◌, List, Memᴰ, ◌==◌, nat_eq, string_eq, option_eq, any_row,
}
use cost_engine_orchestratio.Store.Status.{
  DatasetStatus, building, validating, published, rejected, JobStatus, pending, running, succeeded,
  failed, AttemptStatus, prepared, dispatching, accepted, attempt_succeeded, attempt_failed,
  dispatch_failed, dataset_status_eq, job_status_eq, attempt_status_eq, definition_status_eq,
  is_active_attempt,
}
use cost_engine_orchestratio.Store.Tables.{
  DatasetVersion, CalculationJob, ExecutionAttempt, Database,
}
use cost_engine_orchestratio.Base.Unique.{UniqueOn, Unique}

-- The statuses that an attempt may have while its job has the given one.
abbrev pub compatible : JobStatus → AttemptStatus → Bool
compatible pending prepared = true
compatible pending dispatching = true
compatible pending dispatch_failed = true
compatible running accepted = true
compatible running attempt_failed = true
compatible running dispatch_failed = true
compatible succeeded attempt_succeeded = true
compatible succeeded attempt_failed = true
compatible succeeded dispatch_failed = true
compatible failed prepared = true
compatible failed dispatching = true
compatible failed attempt_failed = true
compatible failed dispatch_failed = true
compatible _ _ = false

-- the lifecycle is past BUILDING, with the build's results in place
abbrev pub is_validated : DatasetStatus → Bool
is_validated status = status == validating || status == published || status == rejected

abbrev pub AttemptOwned : List CalculationJob → List ExecutionAttempt → Type 0
AttemptOwned js ats =
    (a : ExecutionAttempt) → Memᴰ a ats → any_row (λ j. j.id == a.job_id) js ≡ true

abbrev pub JobOwned : List DatasetVersion → List CalculationJob → Type 0
JobOwned vs js =
    (j : CalculationJob) → Memᴰ j js → any_row (λ v. v.id == j.dataset_version_id) vs ≡ true

abbrev pub Compatible : List CalculationJob → List ExecutionAttempt → Type 0
Compatible js ats =
    (j : CalculationJob) (a : ExecutionAttempt)
    → Memᴰ j js
    → Memᴰ a ats
    → a.job_id ≡ j.id
    → compatible j.status a.status ≡ true

abbrev pub ActiveInBuilding :
    List DatasetVersion → List CalculationJob → List ExecutionAttempt → Type 0
ActiveInBuilding vs js ats =
    (v : DatasetVersion) (j : CalculationJob) (a : ExecutionAttempt)
    → Memᴰ v vs
    → Memᴰ j js
    → Memᴰ a ats
    → j.dataset_version_id ≡ v.id
    → a.job_id ≡ j.id
    → is_active_attempt a.status ≡ true
    → v.status ≡ building

abbrev pub ValidatedSucceeded : List DatasetVersion → List CalculationJob → Type 0
ValidatedSucceeded vs js =
    (v : DatasetVersion) (j : CalculationJob)
    → Memᴰ v vs
    → Memᴰ j js
    → j.dataset_version_id ≡ v.id
    → is_validated v.status ≡ true
    → j.status ≡ succeeded

pub record Consistent (vs : List DatasetVersion) (js : List CalculationJob)
    (ats : List ExecutionAttempt) : Type 0 where
  pub version_ids : Unique (λ v. v.id) vs
  pub job_ids : Unique (λ j. j.id) js
  pub attempt_ids : Unique (λ a. a.id) ats
  pub one_active : UniqueOn (λ a. is_active_attempt a.status) (λ a. a.job_id) ats
  pub attempt_owned : AttemptOwned js ats
  pub job_owned : JobOwned vs js
  pub statuses : Compatible js ats
  pub active_in_building : ActiveInBuilding vs js ats
  pub validated_succeeded : ValidatedSucceeded vs js

abbrev pub IsConsistent : Database → Type 0
IsConsistent db = Consistent db.versions db.jobs db.attempts
