-- ===== src/Preparation/FrozenInputs.antt =====
-- modules/calculation-job-preparation.service.ts: the upstream versions that a preparation freezes as the
-- inputs of a build.
use cost_engine_orchestratio.Base.{
  ◌≤◌, String, ◌≡◌, refl, sym, subst, ◌∙◌, ◌⊎◌, inl, inr, Bool, true, Option, none, some, List, [],
  ◌∷◌, ◌++◌, Memᴰ, Bool-cases, Option-cases, ◌==◌, nat_eq, string_eq, option_eq, eq_of_==,
  find_last,
}
use cost_engine_orchestratio.Base.Rows.{mem-append_cases, mem-cons_cases}
use cost_engine_orchestratio.Exec.Commits.{
  Returns, Commits, pure-Commits, throw-Commits, if_Commits, bind-Commits, gets-Commits,
  or_throw-Commits, require-Commits, require_last, modify_last,
}
use cost_engine_orchestratio.Exec.{Exec}
use cost_engine_orchestratio.Store.Status.{
  published, draft, building, dataset_status_eq, job_status_eq, attempt_status_eq,
  definition_status_eq,
}
use cost_engine_orchestratio.Store.Tables.{
  DatasetSeries, DatasetVersion, DependencyDefinition, BuildSnapshot, SnapshotDependency,
  ExecutionAttempt,
}
use cost_engine_orchestratio.Store.Transaction.{Env}
use cost_engine_orchestratio.Store.Rollback.{with_transaction-Returns}
use cost_engine_orchestratio.Store.Updates.{
  insert_snapshot, insert_snapshot_dependency, insert_attempt, update_jobs-Commits,
  update_versions-Commits,
}
use cost_engine_orchestratio.Consistency.Keeps.{uuid-Commits}
use cost_engine_orchestratio.Preparation.Types.{
  JobContext, CalculationRunContext, LockedSelectedJob,
}
use cost_engine_orchestratio.Preparation.Repository.{
  find_latest_published_upstream_version, find_active_execution_attempt,
  persist_resolved_definition, transition_dataset_version_to_building,
  insert_prepared_execution_attempt,
}
use cost_engine_orchestratio.Preparation.Service.{
  validate_immutable_context, require_building_snapshot, version_for, freeze_jobs,
  freeze_dependencies, freeze_draft_build, lock_types, find_versions, Found,
  initialize_or_reuse_draft_dataset, reuse_building_dataset, prepare_new_attempt,
  reuse_prepared_attempt, prepare_selected_job_attempt, obtain_snapshot,
  prepare_calculation_job_run, prepare_calculation_job_run_service,
}
use cost_engine_orchestratio.Preparation.Numbers.{find_latest_published_upstream_version-latest}

module _ {A : Type 0} where
  find_last-mem :
      (p : A → Bool) (xs : List A) {x : A} → find_last p xs ≡ some x → Memᴰ x xs × (p x ≡ true)
  unfolding find_last
  find_last-mem p [] h = cc
  find_last-mem p (y ∷ xs) {x} h = elim (Option-cases (find_last p xs)) [
    | inr (z, e) ↦
        let same : find_last p xs ≡ some x = e ∙ (rw e at h) in
        let (m, k) = find_last-mem p xs same in (Memᴰ.tail m, k)
    | inl e ↦ elim (Bool-cases (p y)) [
      | inl hit ↦
          let same : ◌≡◌ {A = Option A} (some y) (some x) = rw (e, hit) at h in
          let same' : y ≡ x = cc in (Memᴰ.head (sym same'), subst (λ (z : A). p z ≡ true) same' hit)
      | inr miss ↦ cc (rw (e, miss) at h)
    ]
  ]

-- The versions are each the latest PUBLISHED one of their series.
AllLatest : Env → List DatasetVersion → Type 0
AllLatest s vs =
    (v : DatasetVersion) → Memᴰ v vs → find_latest_published_upstream_version v.series_id s ≡ some v

cons-AllLatest :
    (s : Env) (series_id : String) (w : DatasetVersion) (vs : List DatasetVersion)
    → find_latest_published_upstream_version series_id s ≡ some w
    → AllLatest s vs
    → AllLatest s (w ∷ vs)
unfolding AllLatest
cons-AllLatest s series_id w vs e all v (Memᴰ.tail m) = all v m
cons-AllLatest s series_id w vs e all v (Memᴰ.head q) =
    subst (λ (x : DatasetVersion). find_latest_published_upstream_version x.series_id s ≡ some x)
      (sym q)
      (subst (λ (k : String). find_latest_published_upstream_version k s ≡ some w)
        (sym (find_latest_published_upstream_version-latest series_id s e).1) e)

nil-AllLatest : (s : Env) → AllLatest s []
unfolding AllLatest
nil-AllLatest s v m = elim m [ ]

find_versions-AllLatest :
    (series : List DatasetSeries) (s : Env) → AllLatest s (find_versions series s).found
unfolding find_versions
find_versions-AllLatest [] s = nil-AllLatest s
find_versions-AllLatest (row ∷ rest) s =
    by_found (find_latest_published_upstream_version row.id s) refl (find_versions-AllLatest rest s)
  where
    by_found :
        (o : Option DatasetVersion)
        → find_latest_published_upstream_version row.id s ≡ o
        → AllLatest s (find_versions rest s).found
        → AllLatest s
            (elim o as (λ _. Found DatasetVersion) [
              | some version ↦ record {
                found = version ∷ (find_versions rest s).found;
                missing = (find_versions rest s).missing;
              }
              | none ↦ record {
                found = (find_versions rest s).found;
                missing = row.domain ∷ (find_versions rest s).missing;
              }
            ]).found
    by_found none e all = all
    by_found (some w) e all = cons-AllLatest s row.id w (find_versions rest s).found e all

-- An input that a build may freeze: the row refers to a PUBLISHED version of its series, and no PUBLISHED
-- version of the series is later.
abbrev pub IsInput : Env → SnapshotDependency → Type 0
IsInput s d =
    (v : DatasetVersion) × Memᴰ v s.db.versions
    × (v.id ≡ d.dataset_version_id)
    × (v.series_id ≡ d.series_id)
    × (v.status ≡ published)
    × ((w : DatasetVersion)
        → Memᴰ w s.db.versions
        → w.series_id ≡ d.series_id
        → w.status ≡ published
        → w.version ≤ v.version)

-- Each row was there, or is such an input.
abbrev pub FrozenFrom : Env → List SnapshotDependency → Type 0
FrozenFrom s ds =
    (d : SnapshotDependency) → Memᴰ d ds → Memᴰ d s.db.snapshot_dependencies ⊎ IsInput s d

-- the frozen rows of the tables that an action leaves
abbrev pub Froze : Env → {A : Type 0} → A → Env → Type 0
Froze s _ t = FrozenFrom s t.db.snapshot_dependencies

FrozenFrom-append :
    (s : Env) (ds : List SnapshotDependency) (snapshot_id : String) (series : DatasetSeries)
    (vs : List DatasetVersion) (v : DatasetVersion)
    → AllLatest s vs
    → version_for vs series.id ≡ some v
    → FrozenFrom s ds
    → FrozenFrom s (
        ds
        ++ record { snapshot_id = snapshot_id; series_id = series.id; dataset_version_id = v.id }
          ∷ [])
unfolding AllLatest
FrozenFrom-append s ds snapshot_id series vs v all found old d m = elim (mem-append_cases ds m) [
  | inl there ↦ old d there
  | inr here ↦ elim (mem-cons_cases here) [
    | inr nowhere ↦ elim nowhere [ ]
    | inl e ↦
        let (mv, k) = find_last-mem (λ x. x.series_id == series.id) vs found in
        let of_series : v.series_id ≡ series.id = eq_of_== k in
        let latest =
          subst (λ (i : String). find_latest_published_upstream_version i s ≡ some v) of_series
            (all v mv) in
        let (there, own, is_published, above) =
          find_latest_published_upstream_version-latest series.id s latest in
        inr (subst (IsInput s) (sym e) (v, there, refl, own, is_published, above))
  ]
]

validate_immutable_context-same :
    (c : CalculationRunContext) (s : Env) → Commits (λ _ t. t ≡ s) (validate_immutable_context c) s
unfolding validate_immutable_context
validate_immutable_context-same c s =
    require-Commits _ _ λ _. require-Commits _ _ λ _. require_last _ _ refl

lock_types-same : (jobs : List JobContext) (s : Env) → Commits (λ _ t. t ≡ s) (lock_types jobs) s
unfolding lock_types
lock_types-same [] s = pure-Commits _ refl
lock_types-same (job ∷ jobs) s = gets-Commits _ _ (
    or_throw-Commits _ _
      λ _ _. require-Commits _ _ λ _. require-Commits _ _ λ _. lock_types-same jobs s)

same_start :
    {A : Type 0} (Q : A → Env → Type 0) (m : Exec Env A) (s t : Env)
    → t ≡ s
    → Commits Q m s
    → Commits Q m t
same_start Q m s t e c = subst (λ (u : Env). Commits Q m u) (sym e) c

module _ (s : Env) where
  freeze_jobs-Froze :
      (version_id : String) (definitions : List DependencyDefinition) (jobs : List JobContext)
      {t : Env}
      → FrozenFrom s t.db.snapshot_dependencies
      → Commits (Froze s) (freeze_jobs version_id definitions jobs) t
  unfolding freeze_jobs persist_resolved_definition
  freeze_jobs-Froze version_id definitions [] h = pure-Commits _ h
  freeze_jobs-Froze version_id definitions (job ∷ jobs) h = or_throw-Commits _ _ λ d _.
      update_jobs-Commits _ _ _
        λ _. require-Commits _ _ λ _. freeze_jobs-Froze version_id definitions jobs h

  insert_snapshot-Froze :
      (r : BuildSnapshot) {t : Env}
      → FrozenFrom s t.db.snapshot_dependencies
      → Commits (Froze s) (insert_snapshot r) t
  unfolding insert_snapshot
  insert_snapshot-Froze r h =
      gets-Commits _ _ (require-Commits _ _ λ _. require-Commits _ _ λ _. modify_last _ h)

  freeze_dependencies-Froze :
      (snapshot_id : String) (vs : List DatasetVersion) (series : List DatasetSeries) {t : Env}
      → AllLatest s vs
      → FrozenFrom s t.db.snapshot_dependencies
      → Commits (Froze s) (freeze_dependencies snapshot_id vs series) t
  unfolding freeze_dependencies insert_snapshot_dependency
  freeze_dependencies-Froze snapshot_id vs [] all h = pure-Commits _ h
  freeze_dependencies-Froze snapshot_id vs (row ∷ rest) {t} all h = or_throw-Commits _ _ λ v found.
      bind-Commits {P = Froze s} _ _
        (gets-Commits _ _ (
          require-Commits _ _ λ _.
            modify_last _
              (FrozenFrom-append s t.db.snapshot_dependencies snapshot_id row vs v all found h)))
        λ _ _ k. freeze_dependencies-Froze snapshot_id vs rest all k

  freeze_draft_build-Froze :
      (c : CalculationRunContext) (definitions : List DependencyDefinition)
      (series : List DatasetSeries) (vs : List DatasetVersion)
      → AllLatest s vs
      → Commits (Froze s) (freeze_draft_build c definitions series vs) s
  unfolding freeze_draft_build transition_dataset_version_to_building
  freeze_draft_build-Froze c definitions series vs all = gets-Commits _ _ (
      require-Commits _ _ λ _. require-Commits _ _ λ _. require-Commits _ _ λ _.
        require-Commits _ _ λ _.
          bind-Commits {P = Froze s} _ _
            (freeze_jobs-Froze c.dataset_version_id definitions c.jobs (λ d m. inl m))
            λ _ _ k1. uuid-Commits _ (
              bind-Commits {P = Froze s} _ _ (insert_snapshot-Froze _ k1) λ _ _ k2.
                bind-Commits {P = Froze s} _ _ (freeze_dependencies-Froze _ vs series all k2)
                  λ _ t k3.
                    update_versions-Commits _ _ _ λ _. require-Commits _ _ λ _. pure-Commits _ k3))

  require_building_snapshot-Froze :
      (c : CalculationRunContext) → Commits (Froze s) (require_building_snapshot c) s
  unfolding require_building_snapshot
  require_building_snapshot-Froze c = gets-Commits _ _ (
      or_throw-Commits _ _ λ _ _.
        require-Commits _ _
          λ _. require-Commits _ _ λ _. require-Commits _ _ λ _. pure-Commits _ (λ d m. inl m))

  initialize_or_reuse_draft_dataset-Froze :
      (c : CalculationRunContext) → Commits (Froze s) (initialize_or_reuse_draft_dataset c) s
  unfolding initialize_or_reuse_draft_dataset
  initialize_or_reuse_draft_dataset-Froze c = bind-Commits _ _ (lock_types-same c.jobs s) λ _ t e.
      same_start _ _ s t e (
        gets-Commits _ _ (
          require-Commits _ _ λ _. gets-Commits _ _ (
            gets-Commits _ _ (
              require-Commits _ _ λ _. gets-Commits _ _ (
                require-Commits _ _ λ _. gets-Commits _ _ (
                  or_throw-Commits _ _ λ dataset _.
                    if_Commits (dataset.status == draft)
                      (λ _. freeze_draft_build-Froze c _ _ _ (find_versions-AllLatest _ s))
                      (λ _. require-Commits _ _ λ _. require_building_snapshot-Froze c)))))))

  reuse_building_dataset-Froze :
      (c : CalculationRunContext) → Commits (Froze s) (reuse_building_dataset c) s
  unfolding reuse_building_dataset
  reuse_building_dataset-Froze c =
      gets-Commits _ _
        (or_throw-Commits _ _ λ _ _. require-Commits _ _ λ _. require_building_snapshot-Froze c)

  obtain_snapshot-Froze : (c : CalculationRunContext) → Commits (Froze s) (obtain_snapshot c) s
  unfolding obtain_snapshot
  obtain_snapshot-Froze c =
      if_Commits (c.dataset_status == draft) (λ _. initialize_or_reuse_draft_dataset-Froze c)
        (λ _.
          if_Commits (c.dataset_status == building) (λ _. reuse_building_dataset-Froze c)
            (λ _. throw-Commits _))

  insert_attempt-Froze :
      (a : ExecutionAttempt) {t : Env}
      → FrozenFrom s t.db.snapshot_dependencies
      → Commits (Froze s) (insert_attempt a) t
  unfolding insert_attempt
  insert_attempt-Froze a h = gets-Commits _ _ (
      require-Commits _ _ λ _.
        require-Commits _ _ λ _. require-Commits _ _ λ _. require-Commits _ _ λ _. modify_last _ h)

  prepare_selected_job_attempt-Froze :
      (c : CalculationRunContext) (snapshot_id : String) (t : Env)
      → FrozenFrom s t.db.snapshot_dependencies
      → Commits (Froze s) (prepare_selected_job_attempt c snapshot_id) t
  unfolding prepare_selected_job_attempt prepare_new_attempt reuse_prepared_attempt
      insert_prepared_execution_attempt
  prepare_selected_job_attempt-Froze c snapshot_id t h = gets-Commits _ _ (
      or_throw-Commits _ _ λ l _. require-Commits _ _ λ _.
        require-Commits _ _
          λ _. gets-Commits _ _ (by_active l (find_active_execution_attempt l.id t)))
    where
      by_active :
          (l : LockedSelectedJob) (active : Option ExecutionAttempt)
          → Commits
              (Froze s)
              (elim active [
                | some attempt ↦ reuse_prepared_attempt c snapshot_id l attempt
                | none ↦ prepare_new_attempt c.dataset_version_id snapshot_id l
              ])
              t
      by_active l (some a) = require-Commits _ _ λ _. pure-Commits _ h
      by_active l none = gets-Commits _ _ (
          uuid-Commits _
            (bind-Commits {P = Froze s} _ _ (insert_attempt-Froze _ h) λ _ _ k. pure-Commits _ k))

  -- Whenever a preparation returns, each input of a build in the tables was there before, or refers to a
  -- version of its series that was PUBLISHED, and no later version of the series was PUBLISHED.
  pub prepare_calculation_job_run_service-Froze :
      (job_id : String) → Returns (Froze s) (prepare_calculation_job_run_service job_id s)
  unfolding prepare_calculation_job_run_service prepare_calculation_job_run
  prepare_calculation_job_run_service-Froze job_id = with_transaction-Returns _ s (
      gets-Commits _ _ (
        or_throw-Commits _ _ λ c _. bind-Commits _ _ (validate_immutable_context-same c s) λ _ t e.
          same_start _ _ s t e (
            bind-Commits _ _ (obtain_snapshot-Froze c)
              λ snapshot_id u k. prepare_selected_job_attempt-Froze c snapshot_id u k)))
