-- ===== src/DemoSession/Service.antt =====
-- modules/demo-session/demo-session.service.ts: the creation, the authentication and the revocation of
-- demo sessions on the table demo_sessions. Times are in microseconds.
use cost_engine_orchestratio.Base.{
  ℕ, zero, suc, ◌+◌, ◌*◌, String, Bool, false, not, ◌&&◌, ◌||◌, Option, none, some, List, [], ◌∷◌,
  ◌++◌, if◌then◌else◌, ◌==◌, nat_eq, string_eq, option_eq, ltb, leb, length, find_row, any_row,
  update_rows, count_rows, select,
}
use Prim.Native.Nat.{◌/◌}
use cost_engine_orchestratio.DemoSession.Errors.{
  DemoError, Outcome, returned, thrown, session_unavailable, demo_error, plain_error,
  allocation_exhausted, ◌>>◌,
}
use cost_engine_orchestratio.DemoSession.Context.{Session, assert_trusted}
use cost_engine_orchestratio.DemoSession.Cookies.{Text, Codec, read_session_cookie}

-- a row of demo_sessions
pub record SessionRow : Type 0 where
  pub id : String
  pub company_code : String
  pub token_hash : String
  pub created_at : ℕ
  pub expires_at : ℕ
  pub revoked_at : Option ℕ

pub record Candidate : Type 0 where
  pub id : String
  pub token : Text
  pub company_code : String

-- how a COMMIT ends: confirmed, or its answer lost after or before it took effect
pub data CommitAnswer : Type 0 where
  confirmed lost_applied lost_unapplied : CommitAnswer

-- DemoSessionServiceOptions, and what a call of `create` meets
pub record CreateOptions : Type 0 where
  pub capacity : Option (ℕ × ℕ)
  pub connects : Bool
  pub before_commit_throws : Bool
  pub commit : CommitAnswer

-- The table, the companies of dataset_series, the clock, the candidates still to be drawn, and the
-- contexts that the service has made.
pub record SessionState : Type 0 where
  pub sessions : List SessionRow
  pub series_companies : List String
  pub clock : ℕ
  pub candidates : ℕ → Candidate
  pub drawn : ℕ
  pub contexts : List ℕ
  pub next_context : ℕ

abbrev pub session_lifetime : ℕ
session_lifetime = 4 * 60 * 60 * 1000000

-- date_trunc('milliseconds', clock_timestamp())
abbrev pub instant : SessionState → ℕ
instant st = (st.clock / 1000) * 1000

abbrev pub is_current : ℕ → SessionRow → Bool
is_current now r = (r.revoked_at == none) && ltb now r.expires_at

-- context
abbrev pub context_of : SessionState → SessionRow → Session
context_of st r = record {
  object = st.next_context;
  session_id = r.id;
  company_code = r.company_code;
  expires_at = r.expires_at;
}

abbrev pub add_context : SessionState → SessionState
add_context st = record st {
  contexts = st.next_context ∷ st.contexts;
  next_context = suc st.next_context;
}

abbrev pub candidate_row : Codec → SessionState → Candidate → SessionRow
candidate_row k st c = record {
  id = c.id;
  company_code = c.company_code;
  token_hash = k.sha256 c.token;
  created_at = instant st;
  expires_at = instant st + session_lifetime;
  revoked_at = none;
}

-- ON CONFLICT DO NOTHING: the unique keys of demo_sessions
abbrev pub collides : SessionRow → SessionRow → Bool
collides r s =
    (s.id == r.id) || (s.company_code == r.company_code) || (s.token_hash == r.token_hash)

-- allocate: `tries` rounds of the loop are left
unfoldable pub allocate : Codec → ℕ → SessionState → Outcome (Session × Text) × SessionState
unfolding any_row
allocate k zero st = (thrown allocation_exhausted, st)
allocate k (suc tries) st =
    let c = st.candidates st.drawn in
    let st' = record st { drawn = suc st.drawn } in
    let again = allocate k tries st' in
    let row = candidate_row k st c in
    if not (length c.token == 32)
    then (thrown (plain_error "Invalid session candidate"), st')
    else if any_row (λ company. company == c.company_code) st.series_companies
    then again
    else if any_row (collides row) st.sessions
    then again
    else (
      returned (context_of st' row, k.encode c.token),
      add_context (record st' { sessions = st.sessions ++ row ∷ [] }),
    )

-- the admission by capacity, when there is one
abbrev pub is_at_capacity : Option (ℕ × ℕ) → SessionState → Bool
is_at_capacity none st = false
is_at_capacity (some (active, retained)) st =
    leb active (count_rows (is_current st.clock) st.sessions) || leb retained (length st.sessions)

-- ROLLBACK: what is in memory stays
abbrev pub rolled_back : SessionState → SessionState → SessionState
rolled_back before after = record after { sessions = before.sessions }

-- the errors that `create` passes on as they are
abbrev pub rethrown : DemoError → DemoError
rethrown (plain_error _) = plain_error "Demo session persistence failed"
rethrown e = e

abbrev pub Created : Type 0
Created = Outcome (Session × Text) × SessionState

-- `await this.options.commit(client)`, or COMMIT
abbrev pub commit_created : CommitAnswer → SessionState → SessionState → Session × Text → Created
commit_created confirmed old st r = (returned r, st)
commit_created lost_applied old st r =
    (thrown (demo_error "DEMO_SESSION_CREATE_OUTCOME_UNKNOWN" 503), st)
commit_created lost_unapplied old st r =
    (thrown (demo_error "DEMO_SESSION_CREATE_OUTCOME_UNKNOWN" 503), rolled_back old st)

-- what follows the allocation
abbrev pub finish_create : CreateOptions → SessionState → Created → Created
finish_create o old (thrown e, st) = (thrown (rethrown e), rolled_back old st)
finish_create o old (returned r, st) =
    if o.before_commit_throws
    then (thrown (plain_error "Demo session persistence failed"), rolled_back old st)
    else commit_created o.commit old st r

-- create
unfoldable pub create : Codec → CreateOptions → SessionState → Created
unfolding allocate count_rows
create k o st =
    if not o.connects
    then (thrown (demo_error "DEMO_UNAVAILABLE" 503), st)
    else if is_at_capacity o.capacity st
    then (thrown (demo_error "DEMO_SESSION_CAPACITY_REACHED" 503), st)
    else finish_create o st (allocate k 5 st)

-- `COALESCE($2, clock_timestamp())`
abbrev pub time_or_clock : Option ℕ → SessionState → ℕ
time_or_clock none st = st.clock
time_or_clock (some now) st = now

abbrev pub found_session : SessionState → Option SessionRow → Outcome Session × SessionState
found_session st none = (thrown session_unavailable, st)
found_session st (some r) = (returned (context_of st r), add_context st)

abbrev pub authenticate_token :
    Codec → Option ℕ → SessionState → Outcome (Option Text) → Outcome Session × SessionState
authenticate_token k now st (thrown e) = (thrown e, st)
authenticate_token k now st (returned none) = (thrown session_unavailable, st)
authenticate_token k now st (returned (some token)) = found_session st (
    find_row
      (λ r. (r.token_hash == k.sha256 (k.decode token)) && is_current (time_or_clock now st) r)
      st.sessions)

-- authenticate; `now` is what `options.now` answers, if it is given
unfoldable pub authenticate :
    Codec → Option ℕ → Option Text → Text → SessionState → Outcome Session × SessionState
unfolding read_session_cookie find_row
authenticate k now cookie name st = authenticate_token k now st (read_session_cookie k cookie name)

-- revalidate
unfoldable pub revalidate : Option ℕ → Session → SessionState → Outcome (Unit {0})
unfolding assert_trusted select
revalidate now s st =
    assert_trusted st.contexts s
    >> (if length (
            select
              (λ r.
                (r.id == s.session_id)
                && (r.company_code == s.company_code)
                && is_current (time_or_clock now st) r)
              st.sessions)
          == 1
        then returned tt
        else thrown session_unavailable)

abbrev pub first_revocation : ℕ → Option ℕ → Option ℕ
first_revocation now none = some now
first_revocation now (some t) = some t

-- revoke
unfoldable pub revoke : String → SessionState → SessionState
unfolding update_rows
revoke id st = record st {
  sessions =
      update_rows (λ r. r.id == id)
        (λ r. record r { revoked_at = first_revocation st.clock r.revoked_at }) st.sessions;
}
