-- ===== src/Preparation/Freezing.antt =====
-- modules/calculation-job-preparation.service.ts: freezing the build of a DRAFT dataset version and the
-- invariant of the tables.
use cost_engine_orchestratio.Base.{
  ℕ, String, ◌≡◌, refl, sym, subst, ◌&&◌, some, List, [], ◌∷◌, Memᴰ, ◌==◌, nat_eq, string_eq,
  option_eq, eq_of_==, ==-refl, and-true, update_rows,
}
use cost_engine_orchestratio.Exec.Commits.{
  Commits, pure-Commits, bind-Commits, gets-Commits, or_throw-Commits, require-Commits, modify_last,
}
use cost_engine_orchestratio.Store.Status.{
  draft, building, dataset_status_eq, job_status_eq, attempt_status_eq, definition_status_eq,
}
use cost_engine_orchestratio.Store.Tables.{
  DatasetSeries, DatasetVersion, DependencyDefinition, CalculationJob, BuildSnapshot,
  ExecutionAttempt,
}
use cost_engine_orchestratio.Store.Transaction.{Env}
use cost_engine_orchestratio.Store.Updates.{
  versions_set, insert_snapshot, insert_snapshot_dependency, update_jobs-Commits,
  update_versions-Commits,
}
use cost_engine_orchestratio.Preparation.Types.{JobContext, CalculationRunContext}
use cost_engine_orchestratio.Preparation.Repository.{
  persist_resolved_definition, transition_dataset_version_to_building,
}
use cost_engine_orchestratio.Preparation.Service.{
  freeze_jobs, freeze_dependencies, freeze_draft_build,
}
use cost_engine_orchestratio.Consistency.Version.{version-Consistent}
use cost_engine_orchestratio.Consistency.Resolve.{resolve-Consistent}
use cost_engine_orchestratio.Consistency.Keeps.{uuid-Commits}
use cost_engine_orchestratio.Consistency.Invariant.{Consistent, IsConsistent}
use cost_engine_orchestratio.Preparation.Safety.{IsBuilding}
use cost_engine_orchestratio.Base.Rows.{update_rows-hit}

-- The versions are `vs`, beside consistent tables.
abbrev pub Kept : List DatasetVersion → Env → Type 0
Kept vs t = IsConsistent t.db × (t.db.versions ≡ vs)

freeze_jobs-Kept :
    (version_id : String) (definitions : List DependencyDefinition) (jobs : List JobContext)
    {vs : List DatasetVersion} {s : Env}
    → Kept vs s
    → Commits (λ _ t. Kept vs t) (freeze_jobs version_id definitions jobs) s
unfolding freeze_jobs persist_resolved_definition
freeze_jobs-Kept version_id definitions [] k = pure-Commits _ k
freeze_jobs-Kept version_id definitions (job ∷ jobs) (k, e) = or_throw-Commits _ _ (λ d _.
    update_jobs-Commits _ _ _ λ _. require-Commits _ _ λ _.
      freeze_jobs-Kept version_id definitions jobs
        (resolve-Consistent k _ _ (λ _. refl) (λ _. refl) (λ _. refl), e))

freeze_dependencies-Kept :
    (snapshot_id : String) (versions : List DatasetVersion) (series : List DatasetSeries)
    {vs : List DatasetVersion} {s : Env}
    → Kept vs s
    → Commits (λ _ t. Kept vs t) (freeze_dependencies snapshot_id versions series) s
unfolding freeze_dependencies insert_snapshot_dependency
freeze_dependencies-Kept snapshot_id versions [] k = pure-Commits _ k
freeze_dependencies-Kept snapshot_id versions (row ∷ rest) {vs} k = or_throw-Commits _ _ (λ v _.
    bind-Commits {P = λ _ t. Kept vs t} _ _
      (gets-Commits _ _ (require-Commits _ _ λ _. modify_last _ k))
      (λ _ _ kt. freeze_dependencies-Kept snapshot_id versions rest kt))

insert_snapshot-Kept :
    (r : BuildSnapshot) {vs : List DatasetVersion} {s : Env}
    → Kept vs s
    → Commits (λ _ t. Kept vs t) (insert_snapshot r) s
unfolding insert_snapshot
insert_snapshot-Kept r k =
    gets-Commits _ _ (require-Commits _ _ λ _. require-Commits _ _ λ _. modify_last _ k)

-- a DRAFT version taken to BUILDING
start_build-Consistent :
    {vs : List DatasetVersion} {js : List CalculationJob} {ats : List ExecutionAttempt} (now : ℕ)
    {v0 : DatasetVersion}
    → Consistent vs js ats
    → Memᴰ v0 vs
    → Consistent
        (update_rows
          (λ v. v.id == v0.id && v.status == draft)
          (λ v. record v { status = building; building_started_at = some now })
          vs)
        js
        ats
start_build-Consistent now k mv = version-Consistent k (record {
  version_in = mv;
  only = λ v h. eq_of_== (and-true h).0;
  keys = λ _. refl;
  idle = λ n. absurd (n refl);
  succeeded_jobs = λ h. cc;
})

start_build-IsBuilding :
    (version_id : String) {v0 : DatasetVersion} (s : Env)
    → IsConsistent s.db
    → Memᴰ v0 s.db.versions
    → v0.id ≡ version_id
    → v0.status ≡ draft
    → IsBuilding version_id (
        versions_set
          (λ v. v.id == version_id && v.status == draft)
          (λ v. record v { status = building; building_started_at = some s.now })
          s.db)
start_build-IsBuilding version_id {v0} s k mv e d = record {
  consistent =
      subst
        (λ (x : String).
          Consistent
            (update_rows (λ v. v.id == x && v.status == draft)
              (λ v. record v { status = building; building_started_at = some s.now }) s.db.versions)
            s.db.jobs s.db.attempts)
        e (start_build-Consistent s.now k mv);
  dataset = record v0 { status = building; building_started_at = some s.now };
  dataset_in = update_rows-hit _ _ s.db.versions mv (rw (e, d, ==-refl version_id) refl);
  has_id = e;
  in_building = refl;
}

-- A DRAFT version that is frozen is BUILDING when the transaction goes on.
pub freeze_draft_build-IsBuilding :
    (c : CalculationRunContext) (definitions : List DependencyDefinition)
    (series : List DatasetSeries) (versions : List DatasetVersion) {v0 : DatasetVersion} {s : Env}
    → IsConsistent s.db
    → Memᴰ v0 s.db.versions
    → v0.id ≡ c.dataset_version_id
    → v0.status ≡ draft
    → Commits
        (λ _ t. IsBuilding c.dataset_version_id t.db)
        (freeze_draft_build c definitions series versions)
        s
unfolding freeze_draft_build transition_dataset_version_to_building
freeze_draft_build-IsBuilding c definitions series versions {v0} {s} k mv e d = gets-Commits _ _ (
    require-Commits _ _ λ _. require-Commits _ _ λ _. require-Commits _ _ λ _.
      require-Commits _ _ λ _.
        bind-Commits {P = λ _ t. Kept s.db.versions t} _ _
          (freeze_jobs-Kept c.dataset_version_id definitions c.jobs (k, refl))
          λ _ _ k1. uuid-Commits _ (
            bind-Commits {P = λ _ t. Kept s.db.versions t} _ _ (insert_snapshot-Kept _ k1) λ _ _ k2.
              bind-Commits {P = λ _ t. Kept s.db.versions t} _ _
                (freeze_dependencies-Kept _ versions series k2)
                λ _ t k3. update_versions-Commits _ _ _ λ _. require-Commits _ _ λ _.
                  pure-Commits _ (
                    start_build-IsBuilding c.dataset_version_id t k3.0
                      (subst (λ (vs : List DatasetVersion). Memᴰ v0 vs) (sym k3.1) mv) e d)))
