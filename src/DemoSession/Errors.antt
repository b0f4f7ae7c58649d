-- ===== src/DemoSession/Errors.antt =====
-- modules/demo-session/demo-session.errors.ts, and the codes and statuses that the demo modules give
-- to DemoSessionError. The texts of messages are not modelled.
use cost_engine_orchestratio.Base.{ℕ, String, Option, none, some, ◌≡◌, refl}

pub data DemoError : Type 0 where
  session_unavailable resource_unavailable queue_full : DemoError
  reset_conflict reset_outcome_unknown : DemoError
  -- SessionAllocationExhaustedError
  allocation_exhausted : DemoError
  -- DemoSessionError with its code and its status
  demo_error : String → ℕ → DemoError
  -- any other `Error`, with its text
  plain_error : String → DemoError

unfoldable pub demo_code : DemoError → Option String
demo_code session_unavailable = some "DEMO_SESSION_UNAVAILABLE"
demo_code resource_unavailable = some "DEMO_RESOURCE_UNAVAILABLE"
demo_code queue_full = some "DEMO_SESSION_QUEUE_FULL"
demo_code reset_conflict = some "RESET_CONFLICT"
demo_code reset_outcome_unknown = some "DEMO_RESET_OUTCOME_UNKNOWN"
demo_code (demo_error code status) = some code
demo_code allocation_exhausted = none
demo_code (plain_error _) = none

unfoldable pub demo_status : DemoError → Option ℕ
demo_status session_unavailable = some 401
demo_status resource_unavailable = some 404
demo_status queue_full = some 429
demo_status reset_conflict = some 409
demo_status reset_outcome_unknown = some 503
demo_status (demo_error code status) = some status
demo_status allocation_exhausted = none
demo_status (plain_error _) = none

-- What a call returns or throws.
pub data Outcome {ℓ} (A : Type ℓ) : Type ℓ where
  returned : A → Outcome A
  thrown : DemoError → Outcome A

infixl 5 ◌>>=◌
abbrev pub ◌>>=◌ {ℓ κ} : {A : Type ℓ} {B : Type κ} → Outcome A → (A → Outcome B) → Outcome B
returned a >>= f = f a
thrown e >>= f = thrown e

infixl 5 ◌>>◌
abbrev pub ◌>>◌ {ℓ} : {B : Type ℓ} → Outcome (Unit {0}) → Outcome B → Outcome B
m >> k = m >>= λ _. k

-- A chain of calls that returns did not throw in its first call.
pub >>=-eq-returned {ℓ κ} :
    {A : Type ℓ} {B : Type κ} (m : Outcome A) (f : A → Outcome B) {b : B}
    → (m >>= f) ≡ returned b
    → (a : A) × (m ≡ returned a) × (f a ≡ returned b)
>>=-eq-returned (returned a) f h = (a, refl, h)
>>=-eq-returned (thrown e) f h = cc

pub returned_inj {ℓ} : {A : Type ℓ} {a b : A} → returned a ≡ returned b → a ≡ b
returned_inj h = cc
