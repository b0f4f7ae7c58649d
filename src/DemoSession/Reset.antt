-- ===== src/DemoSession/Reset.antt =====
-- modules/demo-session/demo-session-reset.service.ts and demo-session-cleanup.repository.ts: the reset of
-- a session, whose COMMIT may be answered by nothing, and the registry of executors of demo-runtime.ts.
-- Of the owned data the model keeps the companies of dataset_series; the rows below a series go with it.
use cost_engine_orchestratio.Base.{
  ℕ, String, Bool, true, false, not, ◌&&◌, ◌||◌, Option, none, some, List, if◌then◌else◌, ◌==◌,
  ◌/=◌, nat_eq, string_eq, option_eq, find_row, any_row, select,
}
use cost_engine_orchestratio.DemoSession.Errors.{
  DemoError, Outcome, returned, thrown, session_unavailable, reset_outcome_unknown, demo_error,
  plain_error,
}
use cost_engine_orchestratio.DemoSession.Maps.{set_key, delete_key}
use cost_engine_orchestratio.DemoSession.Context.{Session}
use cost_engine_orchestratio.DemoSession.Service.{
  SessionRow, SessionState, CommitAnswer, confirmed, lost_applied, lost_unapplied, is_current,
  revoke,
}
use cost_engine_orchestratio.DemoSession.Coordinator.{
  Coordinator, try_begin_reset, reserve_cleanup, finish_reset, mark_unknown,
}

-- interface Pending: the reservation, and whether the session was inactive
pub record Pending : Type 0 where
  pub object : ℕ
  pub inactive : Bool

-- The coordinator, the database, the registry of executors by session, and the pending resets;
-- `foreign` lists the companies whose snapshots another company's build refers to, and `release_works`
-- tells whether releaseSession of a session returns; when it throws, the executor stays registered.
pub record ResetState : Type 0 where
  pub coordinator : Coordinator
  pub store : SessionState
  pub foreign : List String
  pub registry : List String
  pub release_works : String → Bool
  pub pending : List (String × Pending)

-- what a cleanup meets of the database
pub record CleanFaults : Type 0 where
  pub connects : Bool
  pub before_commit_throws : Bool
  pub rollback_works : Bool
  pub commit : CommitAnswer
  pub recovery_works : Bool

abbrev pub reset_failed : DemoError
reset_failed = demo_error "DEMO_RESET_FAILED" 500

-- releaseSession of the registry
abbrev pub release_session : String → List String → List String
release_session id registry = select (λ i. i /= id) registry

-- releaseFake: an error of releaseSession is logged, and no more
abbrev pub release_fake : Bool → String → List String → List String
release_fake true id registry = release_session id registry
release_fake false id registry = registry

abbrev pub finish_answer : Outcome Coordinator → ResetState → Outcome (Unit {0}) × ResetState
finish_answer (returned c) st = (returned tt, record st { coordinator = c })
finish_answer (thrown e) st = (thrown e, st)

-- finish
unfoldable pub finish_reservation : String → ℕ → Bool → ResetState → Outcome (Unit {0}) × ResetState
unfolding finish_reset delete_key select
finish_reservation id object committed st =
    finish_answer (finish_reset st.coordinator id object) (record st {
      registry =
          if committed then release_fake (st.release_works id) id st.registry else st.registry;
      pending = delete_key id st.pending;
    })

-- whether the row may be cleaned: an active one for its own session, an inactive one for maintenance
abbrev pub may_clean : Option Session → SessionState → SessionRow → Bool
may_clean none st r = not (is_current st.clock r)
may_clean (some s) st r = is_current st.clock r && (r.company_code == s.company_code)

-- deleteOwnedDemoData, then the revocation
abbrev pub cleaned_store : String → String → SessionState → SessionState
cleaned_store id company st =
    revoke id (record st { series_companies = select (λ c. c /= company) st.series_companies })

abbrev pub cleaned_row :
    Option Session → String → ResetState → Option SessionRow → Outcome SessionState
cleaned_row session id st none = thrown session_unavailable
cleaned_row session id st (some r) =
    if not (may_clean session st.store r)
    then thrown session_unavailable
    else if any_row (λ c. c == r.company_code) st.foreign
    then thrown (plain_error "Foreign snapshot references demo ownership graph")
    else returned (cleaned_store id r.company_code st.store)

-- the statements of the transaction, before `beforeCommit`
unfoldable pub clean_transaction : Option Session → String → ResetState → Outcome SessionState
unfolding find_row any_row select revoke
clean_transaction session id st =
    cleaned_row session id st (find_row (λ r. r.id == id) st.store.sessions)

pub data Resolution : Type 0 where
  committed rolled_back undecided : Resolution

-- `this.finish(…); return …` inside the try of readOutcome
abbrev pub resolved : Bool → Outcome (Unit {0}) × ResetState → Resolution × ResetState
resolved true (returned _, st) = (committed, st)
resolved false (returned _, st) = (rolled_back, st)
resolved done (thrown e, st) = (undecided, st)

abbrev pub read_row : String → Pending → ResetState → Option SessionRow → Resolution × ResetState
read_row id p st none = (undecided, st)
read_row id p st (some r) =
    let revoked = not (r.revoked_at == none) in
    let remaining = any_row (λ c. c == r.company_code) st.store.series_companies in
    let done = revoked && not remaining in
    if revoked && remaining && not p.inactive
    then (undecided, st)
    else resolved done (finish_reservation id p.object done st)

-- readOutcome, on a fresh connection
unfoldable pub read_outcome : String → Pending → Bool → ResetState → Resolution × ResetState
unfolding find_row any_row finish_reservation
read_outcome id p works st =
    if works
    then read_row id p st (find_row (λ r. r.id == id) st.store.sessions)
    else (undecided, st)

abbrev pub after_resolution : Resolution × ResetState → Outcome (Unit {0}) × ResetState
after_resolution (undecided, st) = (thrown reset_outcome_unknown, st)
after_resolution (rolled_back, st) = (thrown reset_failed, st)
after_resolution (committed, st) = (returned tt, st)

-- the end of `clean` when the outcome is unknown
unfoldable pub resolve_unknown :
    String → ℕ → Bool → Bool → ResetState → Outcome (Unit {0}) × ResetState
unfolding mark_unknown set_key read_outcome
resolve_unknown id object inactive works st =
    let p : Pending = record { object = object; inactive = inactive } in
    after_resolution (
      read_outcome id p works (record st {
        coordinator = mark_unknown st.coordinator id object;
        pending = set_key id p st.pending;
      }))

-- the error that `clean` throws after a rollback
abbrev pub rollback_error : DemoError → DemoError
rollback_error session_unavailable = session_unavailable
rollback_error e = reset_failed

abbrev pub after_rollback :
    DemoError → Outcome (Unit {0}) × ResetState → Outcome (Unit {0}) × ResetState
after_rollback e (returned _, st) = (thrown (rollback_error e), st)
after_rollback e (thrown d, st) = (thrown d, st)

-- the catch of `clean` before COMMIT was sent
abbrev pub abort_clean :
    String → ℕ → Bool → CleanFaults → DemoError → ResetState → Outcome (Unit {0}) × ResetState
abort_clean id object inactive f e st =
    if f.rollback_works || not f.connects
    then after_rollback e (finish_reservation id object false st)
    else resolve_unknown id object inactive f.recovery_works st

abbrev pub after_commit :
    String
    → ℕ
    → Bool
    → CleanFaults
    → Outcome (Unit {0}) × ResetState
    → Outcome (Unit {0}) × ResetState
after_commit id object inactive f (returned u, st) = (returned u, st)
after_commit id object inactive f (thrown e, st) =
    resolve_unknown id object inactive f.recovery_works st

-- COMMIT, and what its answer leads to
abbrev pub commit_clean :
    String
    → ℕ
    → Bool
    → CleanFaults
    → CommitAnswer
    → SessionState
    → ResetState
    → Outcome (Unit {0}) × ResetState
commit_clean id object inactive f confirmed store st =
    after_commit id object inactive f
      (finish_reservation id object true (record st { store = store }))
commit_clean id object inactive f lost_applied store st =
    resolve_unknown id object inactive f.recovery_works (record st { store = store })
commit_clean id object inactive f lost_unapplied store st =
    resolve_unknown id object inactive f.recovery_works st

abbrev pub run_clean :
    String
    → ℕ
    → Bool
    → CleanFaults
    → ResetState
    → Outcome SessionState
    → Outcome (Unit {0}) × ResetState
run_clean id object inactive f st (thrown e) = abort_clean id object inactive f e st
run_clean id object inactive f st (returned store) =
    if f.before_commit_throws
    then abort_clean id object inactive f (plain_error "beforeCommit") st
    else commit_clean id object inactive f f.commit store st

abbrev pub is_inactive : Option Session → Bool
is_inactive none = true
is_inactive (some _) = false

-- clean
unfoldable pub clean :
    String → ℕ → Option Session → CleanFaults → ResetState → Outcome (Unit {0}) × ResetState
unfolding clean_transaction finish_reservation resolve_unknown
clean id object session f st =
    if f.connects
    then run_clean id object (is_inactive session) f st (clean_transaction session id st)
    else abort_clean id object (is_inactive session) f (plain_error "connect") st

abbrev pub clean_reserved :
    String
    → Option Session
    → CleanFaults
    → ResetState
    → Outcome (ℕ × Coordinator)
    → Outcome (Unit {0}) × ResetState
clean_reserved id session f st (thrown e) = (thrown e, st)
clean_reserved id session f st (returned (object, c)) =
    clean id object session f (record st { coordinator = c })

-- reset
unfoldable pub reset : Session → CleanFaults → ResetState → Outcome (Unit {0}) × ResetState
unfolding clean try_begin_reset
reset s f st = clean_reserved s.session_id (some s) f st (try_begin_reset st.coordinator s)

-- cleanupInactiveSession
unfoldable pub cleanup_inactive_session :
    String → CleanFaults → ResetState → Outcome (Unit {0}) × ResetState
unfolding clean reserve_cleanup
cleanup_inactive_session id f st = clean_reserved id none f st (reserve_cleanup st.coordinator id)
