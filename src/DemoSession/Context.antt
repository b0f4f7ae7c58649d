-- ===== src/DemoSession/Context.antt =====
-- modules/demo-session/demo-session.service.ts: the contexts of authenticated sessions. A context is
-- an object; `object` is its identity, and the service's WeakSet holds the identities that it made.
use cost_engine_orchestratio.Base.{ℕ, String, List, if◌then◌else◌, any_row, ◌==◌, nat_eq}
use cost_engine_orchestratio.DemoSession.Errors.{Outcome, returned, thrown, session_unavailable}

-- AuthenticatedDemoSession
pub record Session : Type 0 where
  pub object : ℕ
  pub session_id : String
  pub company_code : String
  pub expires_at : ℕ

-- assertTrusted
unfoldable pub assert_trusted : List ℕ → Session → Outcome (Unit {0})
unfolding any_row
assert_trusted contexts s =
    if any_row (λ o. o == s.object) contexts then returned tt else thrown session_unavailable
