-- ===== src/Examples/Resets.antt =====
-- Resets of a session whose COMMIT is answered by nothing: it took effect, it did not, or nobody knows.
use cost_engine_orchestratio.Base.{
  not, ◌&&◌, Bool, true, false, ◌≡◌, ◌≢◌, ◌++◌, refl, [], ◌∷◌, none, some, ◌==◌, string_eq, nat_eq,
  option_eq, any_row,
}
use cost_engine_orchestratio.DemoSession.Errors.{returned, thrown, reset_outcome_unknown}
use cost_engine_orchestratio.DemoSession.Maps.{get_key}
use cost_engine_orchestratio.DemoSession.Context.{assert_trusted}
use cost_engine_orchestratio.DemoSession.Service.{
  SessionRow, CommitAnswer, lost_applied, lost_unapplied, authenticate,
}
use cost_engine_orchestratio.DemoSession.Coordinator.{admit}
use cost_engine_orchestratio.DemoSession.Reset.{ResetState, CleanFaults, reset, reset_failed}
use cost_engine_orchestratio.DemoSession.ResetOutcome.{IsCleaned}
use cost_engine_orchestratio.DemoSession.ResetSafety.{
  reset_returned, reset_failed_unchanged, reset_unknown-admit,
}
use cost_engine_orchestratio.Examples.Coordination.{session_1, idle_coordinator}
use cost_engine_orchestratio.DemoSession.Maintenance.{start_server}
use cost_engine_orchestratio.DemoSession.StartUp.{start_server-authenticate}
use cost_engine_orchestratio.Examples.Credentials.{empty_store, one_codec, repeated, cookie_name}

abbrev row_1 : SessionRow
row_1 = record {
  id = "s-1";
  company_code = "DEMO_1";
  token_hash = "digest";
  created_at = 5000000;
  expires_at = 14405000000;
  revoked_at = none;
}

abbrev demo_state : ResetState
demo_state = record {
  coordinator = idle_coordinator;
  store = record empty_store { sessions = row_1 ∷ []; series_companies = "DEMO_1" ∷ "ACME" ∷ [] };
  foreign = [];
  registry = "s-1" ∷ "s-2" ∷ [];
  pending = [];
  release_works = λ id. id == "s-1";
}

abbrev lost_answer : CommitAnswer → Bool → CleanFaults
lost_answer commit recovery = record {
  connects = true;
  before_commit_throws = false;
  rollback_works = true;
  commit = commit;
  recovery_works = recovery;
}

abbrev after_reset : CleanFaults → ResetState
after_reset f = (reset session_1 f demo_state).1

reset_returned_example :
    IsCleaned "s-1" (after_reset (lost_answer lost_applied true)).store
    × (any_row (λ i. i == "s-1") (after_reset (lost_answer lost_applied true)).registry
        ≡ (any_row (λ i. i == "s-1") demo_state.registry && not (demo_state.release_works "s-1")))
    × (get_key "s-1" (after_reset (lost_answer lost_applied true)).coordinator.resets ≡ none)
unfolding reset
reset_returned_example =
    reset_returned session_1 (lost_answer lost_applied true) demo_state
      (after_reset (lost_answer lost_applied true)) refl

reset_failed_unchanged_example :
    ((after_reset (lost_answer lost_unapplied true)).store ≡ demo_state.store)
    × ((after_reset (lost_answer lost_unapplied true)).registry ≡ demo_state.registry)
unfolding reset
reset_failed_unchanged_example =
    reset_failed_unchanged session_1 (lost_answer lost_unapplied true) demo_state
      (after_reset (lost_answer lost_unapplied true)) reset_failed refl (λ e. cc)

reset_unknown-admit_example :
    admit (after_reset (lost_answer lost_applied false)).coordinator session_1 true
    ≡ thrown reset_outcome_unknown
unfolding reset assert_trusted
reset_unknown-admit_example =
    reset_unknown-admit session_1 (lost_answer lost_applied false) demo_state
      (after_reset (lost_answer lost_applied false)) true refl refl

abbrev restarted : ResetState
restarted = (start_server (λ a b. true) true (λ id. lost_answer lost_applied true) demo_state).1

start_server-authenticate_example :
    authenticate one_codec none
      (some (cookie_name ++ b'=' ∷ repeated 43 b'a'))
      cookie_name
      restarted.store
    ≢ (returned session_1, restarted.store)
unfolding start_server
start_server-authenticate_example =
    start_server-authenticate (λ a b. true) true (λ id. lost_answer lost_applied true) demo_state
      restarted one_codec none (some (cookie_name ++ b'=' ∷ repeated 43 b'a')) cookie_name session_1
      restarted.store refl
