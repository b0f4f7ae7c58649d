-- ===== src/Creation/Safety.antt =====
-- modules/dataset-version/dataset-version.service.ts: a creation and the invariant of the tables.
use cost_engine_orchestratio.Base.{
  ℕ, String, ◌≡◌, refl, sym, ◌∙◌, List, [], ◌∷◌, Memᴰ, nat_eq, string_eq, option_eq, not-true,
  any_row,
}
use cost_engine_orchestratio.Exec.Commits.{
  or_throw_last, Commits, pure-Commits, if_Commits, bind-Commits, gets-Commits, or_throw-Commits,
  require-Commits, modify-Commits, modify_last,
}
use cost_engine_orchestratio.Store.Status.{
  draft, dataset_status_eq, job_status_eq, attempt_status_eq, definition_status_eq,
}
use cost_engine_orchestratio.Store.Tables.{
  DatasetSeries, DatasetVersion, CalculationType, CalculationJob, Database,
}
use cost_engine_orchestratio.Store.Transaction.{Env}
use cost_engine_orchestratio.Store.Updates.{
  insert_series_if_absent, insert_version, insert_job, update_series,
}
use cost_engine_orchestratio.Consistency.Invariant.{IsConsistent}
use cost_engine_orchestratio.Consistency.Keeps.{
  Keeps, Stays, with_transaction-Stays, throw-Stays, try_catch-Stays, uuid-Commits,
}
use cost_engine_orchestratio.Store.Updates.{same_series}
use cost_engine_orchestratio.Base.Rows.{mem-append_last}
use cost_engine_orchestratio.Consistency.Create.{create_version-Consistent, create_job-Consistent}
use cost_engine_orchestratio.Creation.Service.{
  CreateInput, JobInsert, find_or_create_and_lock_series, allocate_next_dataset_version,
  insert_draft_dataset_version, insert_pending_calculation_jobs, job_inserts, create_transaction,
  create_dataset_version_service,
}

-- The tables are consistent, and the dataset version is DRAFT.
record IsDraft (version_id : String) (db : Database) : Type 0 where
  consistent : IsConsistent db
  dataset : DatasetVersion
  dataset_in : Memᴰ dataset db.versions
  has_id : dataset.id ≡ version_id
  in_draft : dataset.status ≡ draft

insert_series-Keeps :
    (r : DatasetSeries) {s : Env} → IsConsistent s.db → Keeps (insert_series_if_absent r) s
unfolding insert_series_if_absent
insert_series-Keeps r {s} k = gets-Commits _ _ (
    if_Commits (any_row (same_series r) s.db.series) (λ _. pure-Commits _ k)
      λ _. require-Commits _ _ λ _. modify_last _ k)

find_or_create-Keeps :
    (input : CreateInput) (id : String) {s : Env}
    → IsConsistent s.db
    → Keeps (find_or_create_and_lock_series input id) s
unfolding find_or_create_and_lock_series
find_or_create-Keeps input id k =
    bind-Commits {P = λ _ t. IsConsistent t.db} _ _ (insert_series-Keeps _ k)
      λ _ _ kt. gets-Commits _ _ (or_throw_last _ _ λ _ _. kt)

allocate-Keeps :
    (series_id : String) {s : Env}
    → IsConsistent s.db
    → Keeps (allocate_next_dataset_version series_id) s
unfolding allocate_next_dataset_version update_series
allocate-Keeps series_id k =
    bind-Commits {P = λ _ t. IsConsistent t.db} _ _
      (gets-Commits _ _ (modify-Commits _ _ (pure-Commits _ k)))
      λ _ _ kt. or_throw-Commits _ _ λ _ _. pure-Commits _ kt

insert_version-IsDraft :
    (v : DatasetVersion) {s : Env}
    → v.status ≡ draft
    → IsConsistent s.db
    → Commits (λ _ t. IsDraft v.id t.db) (insert_version v) s
unfolding insert_version
insert_version-IsDraft v {s} at_draft k = gets-Commits _ _ (
    require-Commits _ _ λ new_id. require-Commits _ _ λ _. require-Commits _ _ λ _.
      modify_last _ (record {
        consistent = create_version-Consistent k v (not-true new_id);
        dataset = v;
        dataset_in = mem-append_last s.db.versions v;
        has_id = refl;
        in_draft = at_draft;
      }))

insert_new-IsDraft :
    (id series_id : String) (version : ℕ) {s : Env}
    → IsConsistent s.db
    → Commits (λ _ t. IsDraft id t.db) (insert_draft_dataset_version id series_id version) s
unfolding insert_draft_dataset_version
insert_new-IsDraft id series_id version k = insert_version-IsDraft _ refl k

insert_job-IsDraft :
    (j : CalculationJob) {version_id : String} {s : Env}
    → j.dataset_version_id ≡ version_id
    → IsDraft version_id s.db
    → Commits (λ _ t. IsDraft version_id t.db) (insert_job j) s
unfolding insert_job
insert_job-IsDraft j e d = gets-Commits _ _ (
    require-Commits _ _ λ new_id. require-Commits _ _ λ _. modify_last _ (record {
      consistent =
          create_job-Consistent d.consistent j d.dataset_in (e ∙ sym d.has_id) d.in_draft
            (not-true new_id);
      dataset = d.dataset;
      dataset_in = d.dataset_in;
      has_id = d.has_id;
      in_draft = d.in_draft;
    }))

insert_jobs-IsDraft :
    (version_id : String) (jobs : List JobInsert) {s : Env}
    → IsDraft version_id s.db
    → Commits (λ _ t. IsDraft version_id t.db) (insert_pending_calculation_jobs version_id jobs) s
unfolding insert_pending_calculation_jobs
insert_jobs-IsDraft version_id [] d = pure-Commits _ d
insert_jobs-IsDraft version_id (job ∷ jobs) d =
    bind-Commits {P = λ _ t. IsDraft version_id t.db} _ _ (insert_job-IsDraft _ refl d) λ _ _ d1.
      bind-Commits {P = λ _ t. IsDraft version_id t.db} _ _ (insert_jobs-IsDraft version_id jobs d1)
        λ _ _ d2. pure-Commits _ d2

job_inserts-IsDraft :
    (types : List CalculationType) {version_id : String} {s : Env}
    → IsDraft version_id s.db
    → Commits (λ _ t. IsDraft version_id t.db) (job_inserts types) s
unfolding job_inserts
job_inserts-IsDraft [] d = pure-Commits _ d
job_inserts-IsDraft (t ∷ types) {version_id} d = uuid-Commits _ (
    bind-Commits {P = λ _ t. IsDraft version_id t.db} _ _
      (job_inserts-IsDraft types (record {
        consistent = d.consistent;
        dataset = d.dataset;
        dataset_in = d.dataset_in;
        has_id = d.has_id;
        in_draft = d.in_draft;
      }))
      λ _ _ d1. pure-Commits _ d1)

create_transaction-Keeps :
    (input : CreateInput) (s : Env) → IsConsistent s.db → Keeps (create_transaction input) s
unfolding create_transaction
create_transaction-Keeps input s k = uuid-Commits _ (
    bind-Commits {P = λ _ t. IsConsistent t.db} _ _ (find_or_create-Keeps input _ k) λ series _ k1.
      gets-Commits _ _ (
        require-Commits _ _ λ _.
          bind-Commits {P = λ _ t. IsConsistent t.db} _ _ (allocate-Keeps series.id k1)
            λ version t2 k2. uuid-Commits _ (
              bind-Commits {P = λ _ t. IsDraft (t2.uuids 0) t.db} _ _
                (insert_new-IsDraft _ series.id version k2)
                λ _ _ d1. gets-Commits _ _ (
                  require-Commits _ _ λ _.
                    bind-Commits {P = λ _ t. IsDraft (t2.uuids 0) t.db} _ _
                      (job_inserts-IsDraft _ d1)
                      λ inserts _ d2.
                        bind-Commits {P = λ _ t. IsDraft (t2.uuids 0) t.db} _ _
                          (insert_jobs-IsDraft _ inserts d2)
                          λ _ _ d3. pure-Commits _ d3.consistent))))

-- Creating a dataset version leaves consistent tables consistent, whether it returns or throws.
pub create_dataset_version_service-Stays :
    (input : CreateInput) → Stays (create_dataset_version_service input)
unfolding create_dataset_version_service
create_dataset_version_service-Stays input =
    try_catch-Stays _ _ (with_transaction-Stays _ (create_transaction-Keeps input))
      λ _. throw-Stays _
