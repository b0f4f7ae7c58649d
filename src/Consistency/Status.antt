-- ===== src/Consistency/Status.antt =====
-- The moves that the services make: an attempt is selected by id and status, and its job by id and a
-- test of its status.
use cost_engine_orchestratio.Base.{
  String, ◌≡◌, refl, subst, ◌∙◌, Bool, true, false, ◌&&◌, List, Memᴰ, ◌==◌, nat_eq, string_eq,
  option_eq, eq_of_==, ==-refl, and-true, update_rows,
}
use cost_engine_orchestratio.Base.Rows.{update_rows_self}
use cost_engine_orchestratio.Store.Status.{
  JobStatus, AttemptStatus, dataset_status_eq, job_status_eq, attempt_status_eq,
  definition_status_eq, is_active_attempt,
}
use cost_engine_orchestratio.Store.Tables.{DatasetVersion, CalculationJob, ExecutionAttempt}
use cost_engine_orchestratio.Consistency.Invariant.{compatible, Consistent}
use cost_engine_orchestratio.Consistency.Move.{move-Consistent}
use cost_engine_orchestratio.Dispatch.Repository.{has_status}

pub has_status-hit :
    (a : ExecutionAttempt) {p : AttemptStatus} → a.status ≡ p → has_status a.id p a ≡ true
has_status-hit a {p} e = let s = ==-refl ⦃e = attempt_status_eq⦄ p in rw (==-refl a.id, e) s

pub has_status-id :
    (id : String) (p : AttemptStatus) (a : ExecutionAttempt) → has_status id p a ≡ true → a.id ≡ id
has_status-id id p a h = eq_of_== (and-true h).0

pub has_status-status :
    (id : String) (p : AttemptStatus) (a : ExecutionAttempt)
    → has_status id p a ≡ true
    → a.status ≡ p
has_status-status id p a h = eq_of_== ⦃e = attempt_status_eq⦄ (and-true h).1

module _ {vs : List DatasetVersion} {js : List CalculationJob} {ats : List ExecutionAttempt}
    (c : Consistent vs js ats) {a0 : ExecutionAttempt} {j0 : CalculationJob} (ma : Memᴰ a0 ats)
    (mj : Memᴰ j0 js) (owner : a0.job_id ≡ j0.id) (p : AttemptStatus)
    (active : is_active_attempt p ≡ true) (at_p : a0.status ≡ p)
    (fa : ExecutionAttempt → ExecutionAttempt) (keys : (a : ExecutionAttempt) → (fa a).id ≡ a.id)
    (jobs : (a : ExecutionAttempt) → (fa a).job_id ≡ a.job_id) where
  -- the attempt and its job
  pub both-Consistent :
      {jid : String}
      → jid ≡ j0.id
      → (test : JobStatus → Bool) → test j0.status ≡ true
      → (fj : CalculationJob → CalculationJob) → ((j : CalculationJob) → (fj j).id ≡ j.id)
      → ((j : CalculationJob) → (fj j).dataset_version_id ≡ j.dataset_version_id)
      → compatible (fj j0).status (fa a0).status ≡ true
      → ((r : AttemptStatus)
          → is_active_attempt r ≡ false
          → compatible j0.status r ≡ true
          → compatible (fj j0).status r ≡ true)
      → Consistent vs
          (update_rows (λ j. j.id == jid && test j.status) fj js)
          (update_rows (has_status a0.id p) fa ats)
  both-Consistent {jid} ej test passes fj jkeys jversions fits others = move-Consistent c (record {
    attempt_in = ma;
    job_in = mj;
    owner = owner;
    was_active = λ a h. rw (has_status-status a0.id p a h) active;
    attempt_hit = has_status-hit a0 at_p;
    attempt_only = λ a h. has_status-id a0.id p a h;
    job_hit = rw (ej, ==-refl j0.id) passes;
    job_only = λ j h. eq_of_== (and-true h).0 ∙ ej;
    attempt_keys = keys;
    attempt_jobs = jobs;
    job_keys = jkeys;
    job_versions = jversions;
    fits = fits;
    others = others;
  })

  -- the attempt alone
  pub attempt-Consistent :
      compatible j0.status (fa a0).status ≡ true
      → Consistent vs js (update_rows (has_status a0.id p) fa ats)
  attempt-Consistent fits =
      subst
        (λ (js' : List CalculationJob). Consistent vs js' (update_rows (has_status a0.id p) fa ats))
        (update_rows_self (λ j. j.id == j0.id && true) js)
        (both-Consistent refl (λ _. true) refl (λ j. j) (λ _. refl) (λ _. refl) fits (λ _ _ h. h))
