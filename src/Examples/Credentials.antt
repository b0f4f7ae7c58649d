-- ===== src/Examples/Credentials.antt =====
-- A demo session that is created, presented by its cookie, and revoked.
use cost_engine_orchestratio.Base.{
  ℕ, zero, suc, ◌≤◌, true, false, ◌≡◌, ◌≢◌, refl, [], ◌∷◌, ◌++◌, some, length, count_rows, all_rows,
  arith,
}
use cost_engine_orchestratio.DemoSession.Errors.{returned, thrown, session_unavailable}
use cost_engine_orchestratio.DemoSession.Context.{Session}
use cost_engine_orchestratio.DemoSession.Cookies.{
  Text, Codec, is_credential, read_session_cookie, is_space,
}
use cost_engine_orchestratio.DemoSession.CookieRoundTrip.{read_session_cookie-one}
use cost_engine_orchestratio.DemoSession.Service.{
  SessionState, CreateOptions, Candidate, confirmed, create, is_current, authenticate, revalidate,
  revoke, add_context,
}
use cost_engine_orchestratio.DemoSession.Credentials.{
  create-authenticate, create_capacity, revoke-authenticate, revoke-revalidate,
}

abbrev pub repeated : ℕ → ℕ → Text
repeated zero c = []
repeated (suc n) c = c ∷ repeated n c

-- one credential, spelled with 43 letters
abbrev pub one_codec : Codec
one_codec = record {
  encode = λ _. repeated 43 b'a';
  decode = λ _. repeated 32 0;
  sha256 = λ _. "digest";
}

abbrev pub one_candidate : Candidate
one_candidate = record { id = "s-1"; token = repeated 32 0; company_code = "DEMO_1" }

abbrev pub empty_store : SessionState
empty_store = record {
  sessions = [];
  series_companies = "ACME" ∷ [];
  clock = 5000123;
  candidates = λ _. one_candidate;
  drawn = 0;
  contexts = [];
  next_context = 1;
}

abbrev small_capacity : CreateOptions
small_capacity = record {
  capacity = some (1, 2);
  connects = true;
  before_commit_throws = false;
  commit = confirmed;
}

abbrev created_store : SessionState
created_store = (create one_codec small_capacity empty_store).1

abbrev created_session : Session
created_session = record {
  object = 1;
  session_id = "s-1";
  company_code = "DEMO_1";
  expires_at = 14405000000;
}

abbrev pub cookie_name : Text
cookie_name = b'c' ∷ b'e' ∷ []

read_session_cookie-one_example :
    read_session_cookie one_codec (some (cookie_name ++ b'=' ∷ repeated 43 b'a')) cookie_name
    ≡ returned (some (repeated 43 b'a'))
unfolding is_credential all_rows is_space
read_session_cookie-one_example =
    read_session_cookie-one one_codec cookie_name (repeated 43 b'a') refl refl

create-authenticate_example :
    authenticate one_codec
      (some 6000000)
      (some (cookie_name ++ b'=' ∷ repeated 43 b'a'))
      cookie_name
      created_store
    ≡ (
      returned (record created_session { object = created_store.next_context }),
      add_context created_store,
    )
unfolding create is_credential all_rows is_space
create-authenticate_example =
    create-authenticate one_codec small_capacity empty_store created_session (repeated 43 b'a')
      cookie_name 6000000 created_store refl (λ n. (refl, refl)) refl (omega arith)

create_capacity_example :
    (count_rows (is_current empty_store.clock) created_store.sessions ≤ 1)
    × (length created_store.sessions ≤ 2)
unfolding count_rows
create_capacity_example =
    create_capacity one_codec small_capacity empty_store 1 2 refl (omega arith) (omega arith)

abbrev second_session : Session
second_session = record created_session { object = 2 }

revoke-authenticate_example : second_session.session_id ≢ "s-2"
unfolding create is_credential all_rows is_space authenticate revoke
revoke-authenticate_example =
    revoke-authenticate one_codec "s-2" created_store (some 6000000)
      (some (cookie_name ++ b'=' ∷ repeated 43 b'a')) cookie_name second_session
      (add_context (revoke "s-2" created_store)) refl

revoke-revalidate_example :
    revalidate (some 6000000) created_session (revoke created_session.session_id created_store)
    ≡ thrown session_unavailable
revoke-revalidate_example = revoke-revalidate created_session created_store (some 6000000)
