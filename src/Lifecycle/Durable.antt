-- ===== src/Lifecycle/Durable.antt =====
-- modules/dataset-version/dataset-version-lifecycle.service.ts: what the commands answer, beside what
-- the tables hold.
use cost_engine_orchestratio.Base.{
  ℕ, String, ◌≡◌, refl, sym, ◌∙◌, true, Memᴰ, ◌==◌, nat_eq, string_eq, option_eq, eq_of_==, ==-refl,
}
use cost_engine_orchestratio.Exec.Commits.{
  Returns, Commits, pure-Commits, if_Commits, bind-Commits, gets-Commits, or_throw-Commits,
  require-Commits,
}
use cost_engine_orchestratio.Store.Status.{
  DatasetStatus, validating, abandoned, dataset_status_eq, job_status_eq, attempt_status_eq,
  definition_status_eq,
}
use cost_engine_orchestratio.Store.Tables.{DatasetVersion}
use cost_engine_orchestratio.Store.Transaction.{Env, Action, with_transaction}
use cost_engine_orchestratio.Store.Updates.{update_versions-Commits}
use cost_engine_orchestratio.Base.Rows.{update_rows-hit}
use cost_engine_orchestratio.Store.Rollback.{with_transaction-Returns}
use cost_engine_orchestratio.Lifecycle.Safety.{VersionRow, lock_lifecycle_dataset-VersionRow}
use cost_engine_orchestratio.Lifecycle.Service.{
  LifecycleDataset, LifecycleTarget, to_validating, to_published, to_rejected, to_abandoned,
  status_of_target, is_source, stamped, transition_lifecycle_dataset, apply_transition,
  submit_building, submit_validation_transaction, submit_dataset_validation_service,
  lock_terminal_decision_dataset, Decision, publish, reject, target_of, decide_transaction,
  decide_validated_dataset, abandon_open, abandon_transaction, abandon_dataset_version_service,
}

-- The answer has the target's status, and so does the version that was asked for.
pub record Reached (version_id : String) (target : DatasetStatus) (d : LifecycleDataset) (t : Env)
    : Type 0 where
  pub answered : d.dataset_status ≡ target
  pub row : DatasetVersion
  pub row_in : Memᴰ row t.db.versions
  pub has_id : row.id ≡ version_id
  pub in_target : row.status ≡ target

stamped-status :
    (t : LifecycleTarget) (now : ℕ) (v : DatasetVersion)
    → (stamped t now v).status ≡ status_of_target t
stamped-status to_validating now v = refl
stamped-status to_published now v = refl
stamped-status to_rejected now v = refl
stamped-status to_abandoned now v = refl

stamped-same : (t : LifecycleTarget) (now : ℕ) (v : DatasetVersion) → (stamped t now v).id ≡ v.id
stamped-same to_validating now v = refl
stamped-same to_published now v = refl
stamped-same to_rejected now v = refl
stamped-same to_abandoned now v = refl

module _ {version_id : String} {s : Env} {d : LifecycleDataset}
    (row : VersionRow version_id s d) where
  apply_transition-Reached :
      (target : LifecycleTarget)
      → is_source target d.dataset_status ≡ true
      → Commits (Reached version_id (status_of_target target)) (apply_transition d target) s
  unfolding apply_transition transition_lifecycle_dataset
  apply_transition-Reached target source = update_versions-Commits _ _ _ λ _.
      require-Commits _ _ λ _. pure-Commits _ (record {
        answered = refl;
        row = stamped target s.now row.row;
        row_in =
            update_rows-hit _ _ s.db.versions row.row_in
              (rw (sym row.read_id, sym row.read_status, ==-refl d.dataset_version_id) source);
        has_id = stamped-same target s.now row.row ∙ row.asked_id;
        in_target = stamped-status target s.now row.row;
      })

  already-Reached :
      (target : DatasetStatus) → (d.dataset_status == target) ≡ true → Reached version_id target d s
  already-Reached target h =
      let e : d.dataset_status ≡ target = eq_of_== ⦃e = dataset_status_eq⦄ h in
      record {
        answered = e;
        row = row.row;
        row_in = row.row_in;
        has_id = row.asked_id;
        in_target = sym row.read_status ∙ e;
      }

  submit_building-Reached : Commits (Reached version_id validating) (submit_building version_id d) s
  unfolding submit_building
  submit_building-Reached = require-Commits _ _ λ _. require-Commits _ _ λ source.
      gets-Commits _ _ (
        require-Commits _ _ λ _. gets-Commits _ _ (
          require-Commits _ _
            λ _. require-Commits _ _ (λ _. apply_transition-Reached to_validating source)))

  abandon_open-Reached : Commits (Reached version_id abandoned) (abandon_open version_id d) s
  unfolding abandon_open
  abandon_open-Reached = require-Commits _ _ λ source. gets-Commits _ _ (
      require-Commits _ _ λ _. gets-Commits _ _ (
        require-Commits _ _
          λ _. require-Commits _ _ (λ _. apply_transition-Reached to_abandoned source)))

  decide-Reached :
      (decision : Decision)
      → (d.dataset_status == validating) ≡ true
      → Commits
          (Reached version_id (status_of_target (target_of decision)))
          (apply_transition d (target_of decision))
          s
  decide-Reached publish h = apply_transition-Reached to_published h
  decide-Reached reject h = apply_transition-Reached to_rejected h

lock_terminal_decision-VersionRow :
    (version_id series_id : String) (s : Env)
    → Commits
        (λ d t. VersionRow version_id t d)
        (lock_terminal_decision_dataset version_id series_id)
        s
unfolding lock_terminal_decision_dataset
lock_terminal_decision-VersionRow version_id series_id s = gets-Commits _ _ (
    require-Commits _ _ λ _. gets-Commits _ _ (
      or_throw-Commits _ _ λ d found.
        require-Commits _ _
          λ _. pure-Commits _ (lock_lifecycle_dataset-VersionRow version_id s found)))

-- Whenever a submission for validation returns, it answers VALIDATING and the version is VALIDATING.
pub submit_dataset_validation_service-Reached :
    (version_id : String) (s : Env)
    → Returns (Reached version_id validating) (submit_dataset_validation_service version_id s)
unfolding submit_dataset_validation_service submit_validation_transaction
submit_dataset_validation_service-Reached version_id s = with_transaction-Returns _ s (
    gets-Commits _ _ (
      or_throw-Commits _ _ λ d found.
        let row = lock_lifecycle_dataset-VersionRow version_id s found in
        if_Commits (d.dataset_status == validating)
          (λ h. pure-Commits _ (already-Reached row validating h))
          (λ _. submit_building-Reached row)))

decide_transaction-Reached :
    (version_id series_id : String) (decision : Decision) (s : Env)
    → Commits
        (Reached version_id (status_of_target (target_of decision)))
        (decide_transaction version_id series_id decision)
        s
unfolding decide_transaction
decide_transaction-Reached version_id series_id decision s =
    bind-Commits {P = λ d t. VersionRow version_id t d} _ _
      (lock_terminal_decision-VersionRow version_id series_id s)
      λ d t row.
        if_Commits (d.dataset_status == status_of_target (target_of decision))
          (λ h. pure-Commits _ (already-Reached row _ h))
          λ _. require-Commits _ _ λ h. decide-Reached row decision h

abandon_transaction-Reached :
    (version_id series_id : String) (s : Env)
    → Commits (Reached version_id abandoned) (abandon_transaction version_id series_id) s
unfolding abandon_transaction
abandon_transaction-Reached version_id series_id s =
    bind-Commits {P = λ d t. VersionRow version_id t d} _ _
      (lock_terminal_decision-VersionRow version_id series_id s)
      λ d t row.
        if_Commits (d.dataset_status == abandoned)
          (λ h. pure-Commits _ (already-Reached row abandoned h)) λ _. abandon_open-Reached row

-- a transaction that ends a service
with_transaction-Commits :
    {A : Type 0} {Q : A → Env → Type 0} (m : Action A) (s : Env)
    → Commits Q m s
    → Commits Q (with_transaction m) s
with_transaction-Commits m s c = record { holds = with_transaction-Returns m s c }

-- Whenever a decision on a validated version returns, it answers the decision's status, and the
-- version has it.
pub decide_validated_dataset-Reached :
    (version_id : String) (decision : Decision) (s : Env)
    → Commits
        (Reached version_id (status_of_target (target_of decision)))
        (decide_validated_dataset version_id decision)
        s
unfolding decide_validated_dataset
decide_validated_dataset-Reached version_id decision s = gets-Commits _ _ (
    or_throw-Commits _ _ λ series_id _.
      with_transaction-Commits _ s (decide_transaction-Reached version_id series_id decision s))

-- Whenever an abandonment returns, it answers ABANDONED and the version is ABANDONED.
pub abandon_dataset_version_service-Reached :
    (version_id : String) (s : Env)
    → Commits (Reached version_id abandoned) (abandon_dataset_version_service version_id) s
unfolding abandon_dataset_version_service
abandon_dataset_version_service-Reached version_id s = gets-Commits _ _ (
    or_throw-Commits _ _ λ series_id _.
      with_transaction-Commits _ s (abandon_transaction-Reached version_id series_id s))
