-- ===== src/Store/Status.antt =====
-- The status codes of modules/calculation-job.types.ts and modules/calculation-job-run.repository.ts.
use cost_engine_orchestratio.Base.{ℕ, ◌≡◌, ◌↔◌, Bool, true, ◌||◌, arith, Eq, ◌==◌, nat_beq}

pub data DatasetStatus : Type 0 where
  draft building validating published rejected abandoned : DatasetStatus

pub data JobStatus : Type 0 where
  pending running succeeded failed : JobStatus

-- The statuses of an attempt; the first three are the active ones.
pub data AttemptStatus : Type 0 where
  prepared dispatching accepted : AttemptStatus
  attempt_succeeded attempt_failed dispatch_failed : AttemptStatus

pub data DefinitionStatus : Type 0 where
  definition_draft definition_published definition_abandoned : DefinitionStatus

abbrev dataset_status_index : DatasetStatus → ℕ
dataset_status_index draft = 0
dataset_status_index building = 1
dataset_status_index validating = 2
dataset_status_index published = 3
dataset_status_index rejected = 4
dataset_status_index abandoned = 5

abbrev job_status_index : JobStatus → ℕ
job_status_index pending = 0
job_status_index running = 1
job_status_index succeeded = 2
job_status_index failed = 3

abbrev attempt_status_index : AttemptStatus → ℕ
attempt_status_index prepared = 0
attempt_status_index dispatching = 1
attempt_status_index accepted = 2
attempt_status_index attempt_succeeded = 3
attempt_status_index attempt_failed = 4
attempt_status_index dispatch_failed = 5

abbrev definition_status_index : DefinitionStatus → ℕ
definition_status_index definition_draft = 0
definition_status_index definition_published = 1
definition_status_index definition_abandoned = 2

pub dataset_status_iff :
    (a b : DatasetStatus)
    → (nat_beq (dataset_status_index a) (dataset_status_index b) ≡ true) ↔ (a ≡ b)
dataset_status_iff a b = (λ h. ground arith, λ h. ground arith)

pub job_status_iff :
    (a b : JobStatus) → (nat_beq (job_status_index a) (job_status_index b) ≡ true) ↔ (a ≡ b)
job_status_iff a b = (λ h. ground arith, λ h. ground arith)

pub attempt_status_iff :
    (a b : AttemptStatus)
    → (nat_beq (attempt_status_index a) (attempt_status_index b) ≡ true) ↔ (a ≡ b)
attempt_status_iff a b = (λ h. ground arith, λ h. ground arith)

pub definition_status_iff :
    (a b : DefinitionStatus)
    → (nat_beq (definition_status_index a) (definition_status_index b) ≡ true) ↔ (a ≡ b)
definition_status_iff a b = (λ h. ground arith, λ h. ground arith)

instance abbrev pub dataset_status_eq : Eq DatasetStatus
dataset_status_eq = record {
  equal = λ a b. nat_beq (dataset_status_index a) (dataset_status_index b);
  equal_iff = dataset_status_iff;
}

instance abbrev pub job_status_eq : Eq JobStatus
job_status_eq = record {
  equal = λ a b. nat_beq (job_status_index a) (job_status_index b);
  equal_iff = job_status_iff;
}

instance abbrev pub attempt_status_eq : Eq AttemptStatus
attempt_status_eq = record {
  equal = λ a b. nat_beq (attempt_status_index a) (attempt_status_index b);
  equal_iff = attempt_status_iff;
}

instance abbrev pub definition_status_eq : Eq DefinitionStatus
definition_status_eq = record {
  equal = λ a b. nat_beq (definition_status_index a) (definition_status_index b);
  equal_iff = definition_status_iff;
}

-- status IN ('PREPARED', 'DISPATCHING', 'ACCEPTED')
abbrev pub is_active_attempt : AttemptStatus → Bool
is_active_attempt s = s == prepared || s == dispatching || s == accepted

-- status IN ('SUCCEEDED', 'FAILED')
abbrev pub is_terminal_attempt : AttemptStatus → Bool
is_terminal_attempt s = s == attempt_succeeded || s == attempt_failed

-- status IN ('DRAFT', 'BUILDING', 'VALIDATING')
abbrev pub is_active_dataset : DatasetStatus → Bool
is_active_dataset s = s == draft || s == building || s == validating
