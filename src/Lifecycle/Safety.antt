-- ===== src/Lifecycle/Safety.antt =====
-- modules/dataset-version/dataset-version-lifecycle.service.ts: the commands and the invariant of the
-- tables.
use cost_engine_orchestratio.Base.{
  ℕ, String, ◌≡◌, refl, sym, ap, subst, ◌∙◌, ◌≢◌, inl, inr, Bool, true, false, ◌&&◌, Option, none,
  some, Memᴰ, arith, if◌then◌else◌, Bool-cases, ◌==◌, nat_eq, string_eq, option_eq, eq_of_==,
  ==-refl, not-true, and-true, find_row, any_row,
}
use cost_engine_orchestratio.Base.Rows.{find_row-mem, any_row-none, mem-any_row}
use cost_engine_orchestratio.Exec.{pure}
use cost_engine_orchestratio.Exec.Commits.{
  Commits, pure-Commits, if_Commits, bind-Commits, gets-Commits, or_throw-Commits, require-Commits,
}
use cost_engine_orchestratio.Store.Status.{
  DatasetStatus, building, validating, abandoned, JobStatus, succeeded, AttemptStatus,
  dataset_status_eq, job_status_eq, attempt_status_eq, definition_status_eq, is_active_attempt,
}
use cost_engine_orchestratio.Store.Tables.{DatasetVersion, CalculationJob, ExecutionAttempt}
use cost_engine_orchestratio.Store.Transaction.{Env}
use cost_engine_orchestratio.Store.Updates.{update_versions-Commits}
use cost_engine_orchestratio.Consistency.Invariant.{compatible, is_validated, IsConsistent}
use cost_engine_orchestratio.Consistency.Version.{version-Consistent}
use cost_engine_orchestratio.Consistency.Keeps.{
  Keeps, Stays, with_transaction-Stays, gets-Stays, or_throw-Stays, bind-Stays,
}
use cost_engine_orchestratio.Base.Rows.{mem-select, all_rows-mem}
use cost_engine_orchestratio.Lifecycle.Service.{
  LifecycleDataset, lock_lifecycle_dataset, lock_lifecycle_jobs, lock_lifecycle_attempts,
  LifecycleTarget, to_validating, to_published, to_rejected, to_abandoned, status_of_target,
  stamped, transition_lifecycle_dataset, apply_transition, submit_building,
  submit_validation_transaction, submit_dataset_validation_service, lock_terminal_decision_dataset,
  Decision, target_of, decide_transaction, decide_validated_dataset, abandon_open,
  abandon_transaction, abandon_dataset_version_service,
}

-- The version that `lock_lifecycle_dataset` read.
pub record VersionRow (version_id : String) (s : Env) (d : LifecycleDataset) : Type 0 where
  pub row : DatasetVersion
  pub row_in : Memᴰ row s.db.versions
  pub read_id : d.dataset_version_id ≡ row.id
  pub asked_id : row.id ≡ version_id
  pub read_status : d.dataset_status ≡ row.status

option-row :
    {A B : Type 0} (f : A → B) (o : Option A) {b : B}
    → elim o [ none ↦ none | some a ↦ some (f a) ] ≡ some b
    → (a : A) × (o ≡ some a) × (b ≡ f a)
option-row f none h = cc
option-row f (some a) h = (a, refl, cc)

pub lock_lifecycle_dataset-VersionRow :
    (version_id : String) (s : Env) {d : LifecycleDataset}
    → lock_lifecycle_dataset version_id s ≡ some d
    → VersionRow version_id s d
unfolding lock_lifecycle_dataset
lock_lifecycle_dataset-VersionRow version_id s {d} h =
    let (v, found, e) =
      option-row
        (λ v. record {
          series_id = v.series_id;
          dataset_version_id = v.id;
          version = v.version;
          dataset_status = v.status;
        })
        (find_row (λ v. v.id == version_id) s.db.versions) h in
    let (m, same) = find_row-mem (λ v. v.id == version_id) s.db.versions found in
    record {
      row = v;
      row_in = m;
      read_id = ap (λ (d : LifecycleDataset). d.dataset_version_id) e;
      asked_id = eq_of_== same;
      read_status = ap (λ (d : LifecycleDataset). d.dataset_status) e;
    }

stamped-id : (t : LifecycleTarget) (now : ℕ) (v : DatasetVersion) → (stamped t now v).id ≡ v.id
stamped-id to_validating now v = refl
stamped-id to_published now v = refl
stamped-id to_rejected now v = refl
stamped-id to_abandoned now v = refl

pub succeeded_idle :
    (r : AttemptStatus) → compatible succeeded r ≡ true → is_active_attempt r ≡ false
succeeded_idle r h = ground arith

validating_validated : (u : DatasetStatus) → (u == validating) ≡ true → is_validated u ≡ true
validating_validated u h = ground arith

validating_not_building : (u : DatasetStatus) → (u == validating) ≡ true → u ≢ building
validating_not_building u h e = ground (arith, e)

==-of : {x y : String} → x ≡ y → (x == y) ≡ true
==-of {x} e = subst (λ (z : String). (x == z) ≡ true) e (==-refl x)

both_true : {x y : Bool} → x ≡ true → y ≡ true → (x && y) ≡ true
both_true p q = ground (arith, p, q)

module _ {version_id : String} {s : Env} {d : LifecycleDataset} (row : VersionRow version_id s d)
    (k : IsConsistent s.db) where
  apply_transition-Keeps :
      (target : LifecycleTarget)
      → ((j : CalculationJob) (a : ExecutionAttempt)
          → Memᴰ j s.db.jobs
          → Memᴰ a s.db.attempts
          → j.dataset_version_id ≡ row.row.id
          → a.job_id ≡ j.id
          → is_active_attempt a.status ≡ false)
      → (is_validated (stamped target s.now row.row).status ≡ true
          → (j : CalculationJob) → Memᴰ j s.db.jobs
          → j.dataset_version_id ≡ row.row.id
          → j.status ≡ succeeded)
      → Keeps (apply_transition d target) s
  unfolding apply_transition transition_lifecycle_dataset
  apply_transition-Keeps target idle done = update_versions-Commits _ _ _ λ _.
      require-Commits _ _ λ _. pure-Commits _ (
        version-Consistent k (record {
          version_in = row.row_in;
          only = λ v h. eq_of_== (and-true h).0 ∙ row.read_id;
          keys = stamped-id target s.now;
          idle = λ _. idle;
          succeeded_jobs = done;
        }))

  submit_building-Keeps : Keeps (submit_building version_id d) s
  unfolding submit_building lock_lifecycle_jobs
  submit_building-Keeps = require-Commits _ _ λ _. require-Commits _ _ λ _. gets-Commits _ _ (
      require-Commits _ _ λ _. gets-Commits _ _ (
        require-Commits _ _ λ _. require-Commits _ _ (λ all_succeeded.
          let done : (j : CalculationJob)
              → Memᴰ j s.db.jobs
              → j.dataset_version_id ≡ row.row.id
              → j.status ≡ succeeded =
            λ j mj e. eq_of_== ⦃e = job_status_eq⦄ (
              all_rows-mem _ _ all_succeeded (
                mem-select (λ j. j.dataset_version_id == version_id) s.db.jobs mj
                  (rw (e ∙ row.asked_id) (==-refl version_id)))) in
          apply_transition-Keeps to_validating
            (λ j a mj ma e o. succeeded_idle a.status (
              subst (λ (u : JobStatus). compatible u a.status ≡ true) (done j mj e)
                (k.statuses j a mj ma o)))
            (λ _. done))))

  submit_validation-Keeps :
      Keeps (if d.dataset_status == validating then pure d else submit_building version_id d) s
  submit_validation-Keeps =
      if_Commits (d.dataset_status == validating) (λ _. pure-Commits _ k)
        (λ _. submit_building-Keeps)

  decide-Keeps :
      (decision : Decision)
      → (d.dataset_status == validating) ≡ true
      → Keeps (apply_transition d (target_of decision)) s
  decide-Keeps decision h =
      let at : (row.row.status == validating) ≡ true =
        subst (λ (u : DatasetStatus). (u == validating) ≡ true) row.read_status h in
      apply_transition-Keeps (target_of decision)
        (λ j a mj ma e o. elim (Bool-cases (is_active_attempt a.status)) [
          | inr idle ↦ idle
          | inl active ↦ absurd (
              validating_not_building row.row.status at
                (k.active_in_building row.row j a row.row_in mj ma e o active))
        ])
        (λ _ j mj e.
          k.validated_succeeded row.row j row.row_in mj e (validating_validated row.row.status at))

  abandon_open-Keeps : Keeps (abandon_open version_id d) s
  unfolding abandon_open lock_lifecycle_attempts
  abandon_open-Keeps = require-Commits _ _ λ _. gets-Commits _ _ (
      require-Commits _ _ λ _. gets-Commits _ _ (
        require-Commits _ _ λ _. require-Commits _ _ (λ none_active.
          apply_transition-Keeps to_abandoned
            (λ j a mj ma e o.
              any_row-none (λ a. is_active_attempt a.status) _ (not-true none_active)
                (mem-select
                  (λ a.
                    any_row (λ j. j.id == a.job_id && j.dataset_version_id == version_id) s.db.jobs)
                  s.db.attempts ma
                  (mem-any_row (λ j. j.id == a.job_id && j.dataset_version_id == version_id)
                    s.db.jobs mj (both_true (==-of (sym o)) (==-of (e ∙ row.asked_id))))))
            (λ h. cc))))

submit_validation_transaction-Keeps :
    (version_id : String) (s : Env)
    → IsConsistent s.db
    → Keeps (submit_validation_transaction version_id) s
unfolding submit_validation_transaction
submit_validation_transaction-Keeps version_id s k = gets-Commits _ _ (
    or_throw-Commits _ _
      λ d found. submit_validation-Keeps (lock_lifecycle_dataset-VersionRow version_id s found) k)

-- Locking for a terminal decision reads the version, and changes nothing.
lock_terminal_decision-row :
    (version_id series_id : String) (s : Env)
    → IsConsistent s.db
    → Commits
        (λ d t. VersionRow version_id t d × IsConsistent t.db)
        (lock_terminal_decision_dataset version_id series_id)
        s
unfolding lock_terminal_decision_dataset
lock_terminal_decision-row version_id series_id s k = gets-Commits _ _ (
    require-Commits _ _ λ _. gets-Commits _ _ (
      or_throw-Commits _ _ λ d found.
        require-Commits _ _
          λ _. pure-Commits _ (lock_lifecycle_dataset-VersionRow version_id s found, k)))

decide_transaction-Keeps :
    (version_id series_id : String) (decision : Decision) (s : Env)
    → IsConsistent s.db
    → Keeps (decide_transaction version_id series_id decision) s
unfolding decide_transaction
decide_transaction-Keeps version_id series_id decision s k =
    bind-Commits {P = λ d t. VersionRow version_id t d × IsConsistent t.db} _ _
      (lock_terminal_decision-row version_id series_id s k)
      λ d t (row, kt).
        if_Commits (d.dataset_status == status_of_target (target_of decision))
          (λ _. pure-Commits _ kt) λ _. require-Commits _ _ λ h. decide-Keeps row kt decision h

abandon_transaction-Keeps :
    (version_id series_id : String) (s : Env)
    → IsConsistent s.db
    → Keeps (abandon_transaction version_id series_id) s
unfolding abandon_transaction
abandon_transaction-Keeps version_id series_id s k =
    bind-Commits {P = λ d t. VersionRow version_id t d × IsConsistent t.db} _ _
      (lock_terminal_decision-row version_id series_id s k)
      λ d t (row, kt).
        if_Commits (d.dataset_status == abandoned) (λ _. pure-Commits _ kt)
          λ _. abandon_open-Keeps row kt

-- The lifecycle commands leave consistent tables consistent, whether they return or throw.
pub submit_dataset_validation_service-Stays :
    (version_id : String) → Stays (submit_dataset_validation_service version_id)
unfolding submit_dataset_validation_service
submit_dataset_validation_service-Stays version_id =
    with_transaction-Stays _ (submit_validation_transaction-Keeps version_id)

pub decide_validated_dataset-Stays :
    (version_id : String) (decision : Decision)
    → Stays (decide_validated_dataset version_id decision)
unfolding decide_validated_dataset
decide_validated_dataset-Stays version_id decision = bind-Stays _ _ (gets-Stays _) λ _.
    bind-Stays _ _ (or_throw-Stays _ _)
      λ series_id. with_transaction-Stays _ (decide_transaction-Keeps version_id series_id decision)

pub abandon_dataset_version_service-Stays :
    (version_id : String) → Stays (abandon_dataset_version_service version_id)
unfolding abandon_dataset_version_service
abandon_dataset_version_service-Stays version_id = bind-Stays _ _ (gets-Stays _) λ _.
    bind-Stays _ _ (or_throw-Stays _ _)
      λ series_id. with_transaction-Stays _ (abandon_transaction-Keeps version_id series_id)
