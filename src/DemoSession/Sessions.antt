-- ===== src/DemoSession/Sessions.antt =====
-- modules/demo-session/demo-session.service.ts: what the creation of a session does to the table, and
-- what the later calls make of it.
use cost_engine_orchestratio.Base.{
  ℕ, zero, suc, ◌+◌, Bool, true, false, not, ◌≡◌, refl, ap, subst, List, [], ◌∷◌, ◌++◌,
  if◌then◌else◌, ◌==◌, nat_eq, string_eq, option_eq, length, any_row, not-false, eq_of_==,
}
use cost_engine_orchestratio.DemoSession.Errors.{
  DemoError, Outcome, returned, thrown, allocation_exhausted, plain_error, demo_error, returned_inj,
}
use cost_engine_orchestratio.DemoSession.Context.{Session}
use cost_engine_orchestratio.DemoSession.Cookies.{Text, Codec}
use cost_engine_orchestratio.DemoSession.Service.{
  SessionRow, CommitAnswer, confirmed, lost_applied, lost_unapplied, CreateOptions, SessionState,
  candidate_row, collides, allocate, is_at_capacity, finish_create, commit_created, rolled_back,
  create, instant, session_lifetime,
}

-- What an allocation that returns did: the first candidate that is free became a row.
pub record Allocated (k : Codec) (st : SessionState) (s : Session) (t : Text) (st' : SessionState)
    : Type 0 where
  pub number : ℕ
  pub well_sized : length (st.candidates number).token ≡ 32
  pub no_datasets :
      any_row (λ company. company == (st.candidates number).company_code) st.series_companies
      ≡ false
  pub no_collision :
      any_row (collides (candidate_row k st (st.candidates number))) st.sessions ≡ false
  pub session : s ≡ record {
    object = st.next_context;
    session_id = (st.candidates number).id;
    company_code = (st.candidates number).company_code;
    expires_at = instant st + session_lifetime;
  }
  pub token : t ≡ k.encode (st.candidates number).token
  pub inserted : st'.sessions ≡ st.sessions ++ candidate_row k st (st.candidates number) ∷ []
  pub clock : st'.clock ≡ st.clock
  pub contexts : st'.contexts ≡ st.next_context ∷ st.contexts

abbrev pub at_number : SessionState → ℕ → SessionState
at_number st n = record st { drawn = n }

-- The three tests of a round, and its two results.
round_cases :
    (P : Outcome (Session × Text) × SessionState → Type 0) (unsized taken collided : Bool)
    (e : DemoError) (st st' : SessionState) (r : Session × Text)
    (again : Outcome (Session × Text) × SessionState)
    → P (thrown e, st)
    → P again
    → (unsized ≡ false → taken ≡ false → collided ≡ false → P (returned r, st'))
    → P (
        if unsized
        then (thrown e, st)
        else if taken
        then again
        else if collided
        then again
        else (returned r, st'))
round_cases P true taken collided e st st' r again t a p = t
round_cases P false true collided e st st' r again t a p = a
round_cases P false false true e st st' r again t a p = a
round_cases P false false false e st st' r again t a p = p refl refl refl

-- Every try leaves the table, or ends the allocation with a new row.
pub data Tried (k : Codec) (st : SessionState)
    : Outcome (Session × Text) × SessionState → Type 0 where
  failed :
      (e : DemoError) (st' : SessionState) → st'.sessions ≡ st.sessions → Tried k st (thrown e, st')
  allocated :
      (s : Session) (t : Text) (st' : SessionState)
      → Allocated k st s t st'
      → Tried k st (returned (s, t), st')

again-Tried :
    (k : Codec) (st : SessionState) (n : ℕ) (r : Outcome (Session × Text) × SessionState)
    → Tried k (at_number st n) r
    → Tried k st r
again-Tried k st n r (failed e st' h) = failed e st' h
again-Tried k st n r (allocated s t st' a) = allocated s t st' (record {
  number = a.number;
  well_sized = a.well_sized;
  no_datasets = a.no_datasets;
  no_collision = a.no_collision;
  session = a.session;
  token = a.token;
  inserted = a.inserted;
  clock = a.clock;
  contexts = a.contexts;
})

pub allocate-Tried : (k : Codec) (tries : ℕ) (st : SessionState) → Tried k st (allocate k tries st)
unfolding allocate
allocate-Tried k zero st = failed allocation_exhausted st refl
allocate-Tried k (suc tries) st =
    round_cases (Tried k st) _ _ _ _ _ _ _ _ (failed _ _ refl)
      (again-Tried k st (suc st.drawn) _ (allocate-Tried k tries (at_number st (suc st.drawn))))
      (λ sized free fresh. allocated _ _ _ (record {
        number = st.drawn;
        well_sized = eq_of_== (not-false sized);
        no_datasets = free;
        no_collision = fresh;
        session = refl;
        token = refl;
        inserted = refl;
        clock = refl;
        contexts = refl;
      }))

-- What a creation leaves in the table: what was there, or one more row, which was admitted.
pub data Inserted (k : Codec) (o : CreateOptions) (st : SessionState)
    : List SessionRow → Type 0 where
  same_rows : {rows : List SessionRow} → rows ≡ st.sessions → Inserted k o st rows
  one_row :
      (row : SessionRow) {rows : List SessionRow}
      → rows ≡ st.sessions ++ row ∷ []
      → any_row (collides row) st.sessions ≡ false
      → is_at_capacity o.capacity st ≡ false
      → Inserted k o st rows

finish_create-Inserted :
    (k : Codec) (o : CreateOptions) (st : SessionState)
    (x : Outcome (Session × Text) × SessionState)
    → is_at_capacity o.capacity st ≡ false
    → Tried k st x
    → Inserted k o st (finish_create o st x).1.sessions
finish_create-Inserted k o st x room (failed e st' h) = same_rows refl
finish_create-Inserted k o st x room (allocated s t st' a) = ended o.before_commit_throws
  where
    committed : (c : CommitAnswer) → Inserted k o st (commit_created c st st' (s, t)).1.sessions
    committed confirmed = one_row _ a.inserted a.no_collision room
    committed lost_applied = one_row _ a.inserted a.no_collision room
    committed lost_unapplied = same_rows refl

    ended :
        (b : Bool)
        → Inserted k o st
            (if b
              then (thrown (plain_error "Demo session persistence failed"), rolled_back st st')
              else commit_created o.commit st st' (s, t)).1.sessions
    ended true = same_rows refl
    ended false = committed o.commit

pub create-Inserted :
    (k : Codec) (o : CreateOptions) (st : SessionState) → Inserted k o st (create k o st).1.sessions
unfolding create
create-Inserted k o st = reached o.connects (is_at_capacity o.capacity st) refl
  where
    reached :
        (on full : Bool)
        → is_at_capacity o.capacity st ≡ full
        → Inserted k o st
            (if not on
              then (thrown (demo_error "DEMO_UNAVAILABLE" 503), st)
              else if full
              then (thrown (demo_error "DEMO_SESSION_CAPACITY_REACHED" 503), st)
              else finish_create o st (allocate k 5 st)).1.sessions
    reached false full e = same_rows refl
    reached true true e = same_rows refl
    reached true false e = finish_create-Inserted k o st (allocate k 5 st) e (allocate-Tried k 5 st)

finish_create-Allocated :
    (k : Codec) (o : CreateOptions) (st : SessionState)
    (x : Outcome (Session × Text) × SessionState) {s : Session} {t : Text} {st' : SessionState}
    → Tried k st x
    → finish_create o st x ≡ (returned (s, t), st')
    → Allocated k st s t st'
finish_create-Allocated k o st x (failed e st1 h) f =
    cc (ap (λ (y : Outcome (Session × Text) × SessionState). y.0) f)
finish_create-Allocated k o st x {s} {t} {st'} (allocated s1 t1 st1 a) f =
    committed o.before_commit_throws o.commit f
  where
    committed :
        (b : Bool) (c : CommitAnswer)
        → (if b
            then (thrown (plain_error "Demo session persistence failed"), rolled_back st st1)
            else commit_created c st st1 (s1, t1))
          ≡ (returned (s, t), st')
        → Allocated k st s t st'
    committed true c g = cc (ap (λ (y : Outcome (Session × Text) × SessionState). y.0) g)
    committed false lost_applied g =
        cc (ap (λ (y : Outcome (Session × Text) × SessionState). y.0) g)
    committed false lost_unapplied g =
        cc (ap (λ (y : Outcome (Session × Text) × SessionState). y.0) g)
    committed false confirmed g =
        let r = returned_inj (ap (λ (y : Outcome (Session × Text) × SessionState). y.0) g) in
        let es = ap (λ (y : Session × Text). y.0) r in
        let et = ap (λ (y : Session × Text). y.1) r in
        let e1 = ap (λ (y : Outcome (Session × Text) × SessionState). y.1) g in
        subst (λ (z : SessionState). Allocated k st s t z) e1
          (subst (λ (z : Text). Allocated k st s z st1) et
            (subst (λ (z : Session). Allocated k st z t1 st1) es a))

pub create-Allocated :
    (k : Codec) (o : CreateOptions) (st : SessionState) {s : Session} {t : Text}
    {st' : SessionState}
    → create k o st ≡ (returned (s, t), st')
    → Allocated k st s t st'
unfolding create
create-Allocated k o st {s} {t} {st'} h = reached o.connects (is_at_capacity o.capacity st) h
  where
    reached :
        (on full : Bool)
        → (if not on
            then (thrown (demo_error "DEMO_UNAVAILABLE" 503), st)
            else if full
            then (thrown (demo_error "DEMO_SESSION_CAPACITY_REACHED" 503), st)
            else finish_create o st (allocate k 5 st))
          ≡ (returned (s, t), st')
        → Allocated k st s t st'
    reached false full g = cc (ap (λ (y : Outcome (Session × Text) × SessionState). y.0) g)
    reached true true g = cc (ap (λ (y : Outcome (Session × Text) × SessionState). y.0) g)
    reached true false g =
        finish_create-Allocated k o st (allocate k 5 st) (allocate-Tried k 5 st) g
