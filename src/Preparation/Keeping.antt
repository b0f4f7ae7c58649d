-- ===== src/Preparation/Keeping.antt =====
-- modules/calculation-job-preparation.service.ts: the preparation of a run and the invariant of the
-- tables.
use cost_engine_orchestratio.Base.{
  String, ◌≡◌, true, some, List, [], ◌∷◌, ◌==◌, nat_eq, string_eq, option_eq, eq_of_==,
}
use cost_engine_orchestratio.Exec.Commits.{
  Commits, pure-Commits, throw-Commits, if_Commits, bind-Commits, gets-Commits, or_throw-Commits,
  require-Commits, require_last,
}
use cost_engine_orchestratio.Store.Status.{
  draft, building, dataset_status_eq, job_status_eq, attempt_status_eq, definition_status_eq,
}
use cost_engine_orchestratio.Store.Tables.{DatasetVersion}
use cost_engine_orchestratio.Store.Transaction.{Env}
use cost_engine_orchestratio.Preparation.Types.{JobContext, CalculationRunContext}
use cost_engine_orchestratio.Preparation.Repository.{lock_output_dataset_version}
use cost_engine_orchestratio.Preparation.Service.{
  validate_immutable_context, require_building_snapshot, lock_types,
  initialize_or_reuse_draft_dataset, reuse_building_dataset, obtain_snapshot,
  prepare_calculation_job_run, prepare_calculation_job_run_service,
}
use cost_engine_orchestratio.Consistency.Keeps.{Keeps, Stays, with_transaction-Stays}
use cost_engine_orchestratio.Consistency.Invariant.{IsConsistent}
use cost_engine_orchestratio.Preparation.Lookups.{lock_output_dataset_version-mem}
use cost_engine_orchestratio.Preparation.Safety.{IsBuilding, prepare_selected_job_attempt-Keeps}
use cost_engine_orchestratio.Preparation.Freezing.{freeze_draft_build-IsBuilding}

require_building_snapshot-IsBuilding :
    (c : CalculationRunContext) {s : Env}
    → IsBuilding c.dataset_version_id s.db
    → Commits (λ _ t. IsBuilding c.dataset_version_id t.db) (require_building_snapshot c) s
unfolding require_building_snapshot
require_building_snapshot-IsBuilding c b = gets-Commits _ _ (
    or_throw-Commits _ _ λ _ _.
      require-Commits _ _ λ _. require-Commits _ _ λ _. require-Commits _ _ λ _. pure-Commits _ b)

-- The version that was locked is BUILDING.
pub locked_building :
    (version_id : String) (s : Env) {v : DatasetVersion}
    → IsConsistent s.db
    → lock_output_dataset_version version_id s ≡ some v
    → (v.status == building) ≡ true
    → IsBuilding version_id s.db
locked_building version_id s {v} k found h =
    let (m, e) = lock_output_dataset_version-mem version_id s found in
    record {
      consistent = k;
      dataset = v;
      dataset_in = m;
      has_id = e;
      in_building = eq_of_== ⦃e = dataset_status_eq⦄ h;
    }

reuse_building_dataset-IsBuilding :
    (c : CalculationRunContext) {s : Env}
    → IsConsistent s.db
    → Commits (λ _ t. IsBuilding c.dataset_version_id t.db) (reuse_building_dataset c) s
unfolding reuse_building_dataset
reuse_building_dataset-IsBuilding c {s} k = gets-Commits _ _ (
    or_throw-Commits _ _ λ v found. require-Commits _ _ λ h.
      require_building_snapshot-IsBuilding c (locked_building c.dataset_version_id s k found h))

lock_types-same :
    (jobs : List JobContext) {s : Env}
    → IsConsistent s.db
    → Commits (λ _ t. IsConsistent t.db) (lock_types jobs) s
unfolding lock_types
lock_types-same [] k = pure-Commits _ k
lock_types-same (job ∷ jobs) k = gets-Commits _ _ (
    or_throw-Commits _ _
      λ _ _. require-Commits _ _ λ _. require-Commits _ _ λ _. lock_types-same jobs k)

initialize_or_reuse-IsBuilding :
    (c : CalculationRunContext) {s : Env}
    → IsConsistent s.db
    → Commits (λ _ t. IsBuilding c.dataset_version_id t.db) (initialize_or_reuse_draft_dataset c) s
unfolding initialize_or_reuse_draft_dataset
initialize_or_reuse-IsBuilding c {s} k =
    bind-Commits {P = λ _ t. IsConsistent t.db} _ _ (lock_types-same c.jobs k) λ _ s1 k1.
      gets-Commits _ _ (
        require-Commits _ _ λ _. gets-Commits _ _ (
          gets-Commits _ _ (
            require-Commits _ _ λ _. gets-Commits _ _ (
              require-Commits _ _ λ _. gets-Commits _ _ (
                or_throw-Commits _ _ λ v found.
                  let (m, e) = lock_output_dataset_version-mem c.dataset_version_id s1 found in
                  if_Commits _
                    (λ d.
                      freeze_draft_build-IsBuilding c _ _ _ k1 m e
                        (eq_of_== ⦃e = dataset_status_eq⦄ d))
                    (λ _. require-Commits _ _ λ h.
                      require_building_snapshot-IsBuilding c
                        (locked_building c.dataset_version_id s1 k1 found h)))))))

obtain_snapshot-IsBuilding :
    (c : CalculationRunContext) {s : Env}
    → IsConsistent s.db
    → Commits (λ _ t. IsBuilding c.dataset_version_id t.db) (obtain_snapshot c) s
unfolding obtain_snapshot
obtain_snapshot-IsBuilding c k =
    if_Commits (c.dataset_status == draft) (λ _. initialize_or_reuse-IsBuilding c k)
      λ _.
        if_Commits (c.dataset_status == building) (λ _. reuse_building_dataset-IsBuilding c k)
          λ _. throw-Commits _

prepare_calculation_job_run-Keeps :
    (job_id : String) (s : Env) → IsConsistent s.db → Keeps (prepare_calculation_job_run job_id) s
unfolding prepare_calculation_job_run validate_immutable_context
prepare_calculation_job_run-Keeps job_id s k = gets-Commits _ _ (
    or_throw-Commits _ _ λ c _.
      bind-Commits {P = λ _ t. IsConsistent t.db} _ _
        (require-Commits _ _ λ _. require-Commits _ _ λ _. require_last _ _ k)
        λ _ _ k1.
          bind-Commits {P = λ _ t. IsBuilding c.dataset_version_id t.db} _ _
            (obtain_snapshot-IsBuilding c k1)
            λ snapshot_id t b. prepare_selected_job_attempt-Keeps c snapshot_id t b)

-- The preparation of a run leaves consistent tables consistent, whether it returns or throws.
pub prepare_calculation_job_run_service-Stays :
    (job_id : String) → Stays (prepare_calculation_job_run_service job_id)
unfolding prepare_calculation_job_run_service
prepare_calculation_job_run_service-Stays job_id =
    with_transaction-Stays _ (prepare_calculation_job_run-Keeps job_id)
