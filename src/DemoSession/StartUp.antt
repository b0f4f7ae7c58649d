-- ===== src/DemoSession/StartUp.antt =====
-- modules/demo-session/demo-session-reset.service.ts: no session outlives a start of the server, since
-- the cleanups that follow the statement only revoke.
use cost_engine_orchestratio.Base.{
  ℕ, String, Bool, true, false, not, ◌&&◌, ◌||◌, ◌≡◌, inl, inr, refl, sym, ap, subst, ◌∙◌, Option,
  none, some, List, [], ◌∷◌, Memᴰ, if◌then◌else◌, ◌≢◌, ◌/=◌, ◌==◌, nat_eq, string_eq, option_eq,
  find_row, any_row, select, Bool-cases, Option-cases, arith,
}
use cost_engine_orchestratio.Base.Rows.{find_row-mem}
use cost_engine_orchestratio.Base.Unique.{each-update}
use cost_engine_orchestratio.DemoSession.Errors.{
  DemoError, Outcome, returned, thrown, session_unavailable, plain_error, returned_inj,
}
use cost_engine_orchestratio.DemoSession.Cookies.{Text, Codec, read_session_cookie}
use cost_engine_orchestratio.DemoSession.Context.{Session}
use cost_engine_orchestratio.DemoSession.Service.{
  SessionRow, SessionState, CommitAnswer, confirmed, lost_applied, lost_unapplied, is_current,
  revoke, first_revocation, authenticate, authenticate_token, time_or_clock,
}
use cost_engine_orchestratio.DemoSession.Coordinator.{Coordinator, finish_reset, reserve_cleanup}
use cost_engine_orchestratio.DemoSession.Reset.{
  Pending, ResetState, CleanFaults, Resolution, committed, rolled_back, undecided, finish_answer,
  finish_reservation, cleaned_store, cleaned_row, may_clean, clean_transaction, resolved, read_row,
  read_outcome, after_resolution, resolve_unknown, after_rollback, after_commit, abort_clean,
  commit_clean, run_clean, clean, clean_reserved, cleanup_inactive_session, is_inactive,
}
use cost_engine_orchestratio.DemoSession.Maintenance.{
  resolve_each, take_first, inactive_candidates, cleanup_each, maintain_inactive_sessions,
  revoke_all, start_server,
}

abbrev pub AllRevoked : SessionState → Type 0
AllRevoked st = (r : SessionRow) → Memᴰ r st.sessions → (r.revoked_at == none) ≡ false

finish_store :
    (id : String) (object : ℕ) (done : Bool) (st : ResetState)
    → (finish_reservation id object done st).1.store ≡ st.store
unfolding finish_reservation
finish_store id object done st = answered (finish_reset st.coordinator id object) _
  where
    answered : (r : Outcome Coordinator) (s : ResetState) → (finish_answer r s).1.store ≡ s.store
    answered (returned c) s = refl
    answered (thrown e) s = refl

resolved_store :
    (done : Bool) (x : Outcome (Unit {0}) × ResetState) → (resolved done x).1.store ≡ x.1.store
resolved_store true (returned u, st) = refl
resolved_store false (returned u, st) = refl
resolved_store done (thrown e, st) = refl

after_resolution_store : (x : Resolution × ResetState) → (after_resolution x).1.store ≡ x.1.store
after_resolution_store (committed, st) = refl
after_resolution_store (rolled_back, st) = refl
after_resolution_store (undecided, st) = refl

read_row_store :
    (id : String) (p : Pending) (st : ResetState) (o : Option SessionRow)
    → (read_row id p st o).1.store ≡ st.store
read_row_store id p st none = refl
read_row_store id p st (some r) = by_tests _ _ _
  where
    by_tests :
        (a done b : Bool)
        → (if a
            then (undecided, st)
            else resolved done (finish_reservation id p.object b st)).1.store
          ≡ st.store
    by_tests true done b = refl
    by_tests false done b = resolved_store done _ ∙ finish_store id p.object b st

read_outcome_store :
    (id : String) (p : Pending) (works : Bool) (st : ResetState)
    → (read_outcome id p works st).1.store ≡ st.store
unfolding read_outcome
read_outcome_store id p false st = refl
read_outcome_store id p true st = read_row_store id p st _

resolve_unknown_store :
    (id : String) (object : ℕ) (inactive works : Bool) (st : ResetState)
    → (resolve_unknown id object inactive works st).1.store ≡ st.store
unfolding resolve_unknown
resolve_unknown_store id object inactive works st =
    after_resolution_store _ ∙ read_outcome_store id _ works _

module _ (id : String) (object : ℕ) (inactive : Bool) (f : CleanFaults) where
  abort_store :
      (e : DemoError) (st : ResetState) → (abort_clean id object inactive f e st).1.store ≡ st.store
  abort_store e st = by_test (f.rollback_works || not f.connects)
    where
      rolled : (x : Outcome (Unit {0}) × ResetState) → (after_rollback e x).1.store ≡ x.1.store
      rolled (returned u, s) = refl
      rolled (thrown d, s) = refl

      by_test :
          (b : Bool)
          → (if b
              then after_rollback e (finish_reservation id object false st)
              else resolve_unknown id object inactive f.recovery_works st).1.store
            ≡ st.store
      by_test true = rolled _ ∙ finish_store id object false st
      by_test false = resolve_unknown_store id object inactive f.recovery_works st

  commit-AllRevoked :
      (c : CommitAnswer) (store : SessionState) (st : ResetState)
      → AllRevoked store
      → AllRevoked st.store
      → AllRevoked (commit_clean id object inactive f c store st).1.store
  commit-AllRevoked confirmed store st new old =
      subst AllRevoked (sym (after _ ∙ finish_store id object true (record st { store = store })))
        new
    where
      after :
          (x : Outcome (Unit {0}) × ResetState)
          → (after_commit id object inactive f x).1.store ≡ x.1.store
      after (returned u, s) = refl
      after (thrown e, s) = resolve_unknown_store id object inactive f.recovery_works s
  commit-AllRevoked lost_applied store st new old =
      subst AllRevoked
        (sym
          (resolve_unknown_store id object inactive f.recovery_works (record st { store = store })))
        new
  commit-AllRevoked lost_unapplied store st new old =
      subst AllRevoked (sym (resolve_unknown_store id object inactive f.recovery_works st)) old

revoke-AllRevoked : (id : String) (st : SessionState) → AllRevoked st → AllRevoked (revoke id st)
unfolding revoke
revoke-AllRevoked id st all =
    each-update (λ r. (r.revoked_at == none) ≡ false) (λ r. r.id == id)
      (λ r. record r { revoked_at = first_revocation st.clock r.revoked_at }) st.sessions
      (λ x m. elim (Bool-cases (x.id == id)) [
        | inl e ↦ rw e (now_revoked x.revoked_at)
        | inr e ↦ rw e (all x m)
      ])
  where
    now_revoked : (t : Option ℕ) → (first_revocation st.clock t == none) ≡ false
    now_revoked none = refl
    now_revoked (some t) = refl

revoke_all-AllRevoked : (st : SessionState) → AllRevoked (revoke_all st)
revoke_all-AllRevoked st =
    each-update (λ r. (r.revoked_at == none) ≡ false) (λ r. r.revoked_at == none)
      (λ r. record r { revoked_at = some st.clock }) st.sessions
      (λ x m. elim (Bool-cases (x.revoked_at == none)) [ inl e ↦ simp e | inr e ↦ simp e ])

cleaned_row-AllRevoked :
    (session : Option Session) (id : String) (st : ResetState) (o : Option SessionRow)
    (store : SessionState)
    → AllRevoked st.store
    → cleaned_row session id st o ≡ returned store
    → AllRevoked store
cleaned_row-AllRevoked session id st none store all h = cc
cleaned_row-AllRevoked session id st (some r) store all h =
    by_tests (not (may_clean session st.store r)) (any_row (λ c. c == r.company_code) st.foreign) h
  where
    by_tests :
        (a b : Bool)
        → (if a
            then thrown session_unavailable
            else if b
            then thrown (plain_error "Foreign snapshot references demo ownership graph")
            else returned (cleaned_store id r.company_code st.store))
          ≡ returned store
        → AllRevoked store
    by_tests true b g = cc
    by_tests false true g = cc
    by_tests false false g = subst AllRevoked (returned_inj g) (
        revoke-AllRevoked id
          (record st.store {
            series_companies = select (λ c. c /= r.company_code) st.store.series_companies;
          })
          all)

clean-AllRevoked :
    (id : String) (object : ℕ) (session : Option Session) (f : CleanFaults) (st : ResetState)
    → AllRevoked st.store
    → AllRevoked (clean id object session f st).1.store
unfolding clean clean_transaction
clean-AllRevoked id object session f st all = connected f.connects
  where
    aborted :
        (e : DemoError) → AllRevoked (abort_clean id object (is_inactive session) f e st).1.store
    aborted e = subst AllRevoked (sym (abort_store id object (is_inactive session) f e st)) all

    transacted :
        (r : Outcome SessionState)
        → clean_transaction session id st ≡ r
        → AllRevoked (run_clean id object (is_inactive session) f st r).1.store
    transacted (thrown e) h = aborted e
    transacted (returned store) h = before_commit f.before_commit_throws
      where
        before_commit :
            (b : Bool)
            → AllRevoked
                (if b
                  then abort_clean id object (is_inactive session) f (plain_error "beforeCommit") st
                  else commit_clean id object (is_inactive session) f f.commit store st).1.store
        before_commit true = aborted (plain_error "beforeCommit")
        before_commit false =
            commit-AllRevoked id object (is_inactive session) f f.commit store st
              (cleaned_row-AllRevoked session id st _ store all h) all

    connected :
        (b : Bool)
        → AllRevoked
            (if b
              then run_clean id object (is_inactive session) f st (clean_transaction session id st)
              else abort_clean id object (is_inactive session) f (plain_error "connect") st).1.store
    connected true = transacted (clean_transaction session id st) refl
    connected false = aborted (plain_error "connect")

cleanup-AllRevoked :
    (id : String) (f : CleanFaults) (st : ResetState)
    → AllRevoked st.store
    → AllRevoked (cleanup_inactive_session id f st).1.store
unfolding cleanup_inactive_session
cleanup-AllRevoked id f st all = reserved (reserve_cleanup st.coordinator id)
  where
    reserved : (r : Outcome (ℕ × Coordinator)) → AllRevoked (clean_reserved id none f st r).1.store
    reserved (thrown e) = all
    reserved (returned (object, c)) =
        clean-AllRevoked id object none f (record st { coordinator = c }) all

cleanup_each-AllRevoked :
    (faults : String → CleanFaults) (rows : List SessionRow) (counts : ℕ × ℕ) (st : ResetState)
    → AllRevoked st.store
    → AllRevoked (cleanup_each faults rows counts st).1.store
unfolding cleanup_each
cleanup_each-AllRevoked faults [] counts st all = all
cleanup_each-AllRevoked faults (r ∷ rows) counts st all =
    cleanup_each-AllRevoked faults rows _ _ (cleanup-AllRevoked r.id (faults r.id) st all)

resolve_each_store :
    (works : String → Bool) (entries : List (String × Pending)) (st : ResetState)
    → (resolve_each works entries st).store ≡ st.store
unfolding resolve_each
resolve_each_store works [] st = refl
resolve_each_store works ((id, p) ∷ entries) st =
    resolve_each_store works entries _ ∙ read_outcome_store id p (works id) st

start_server-AllRevoked :
    (id_le : String → String → Bool) (updates : Bool) (faults : String → CleanFaults)
    (st st' : ResetState)
    → start_server id_le updates faults st ≡ (returned tt, st')
    → AllRevoked st'.store
unfolding start_server maintain_inactive_sessions
start_server-AllRevoked id_le false faults st st' h =
    cc (ap (λ (x : Outcome (Unit {0}) × ResetState). x.0) h)
start_server-AllRevoked id_le true faults st st' h =
    subst (λ (x : Outcome (Unit {0}) × ResetState). AllRevoked x.1.store) h
      (cleanup_each-AllRevoked faults (inactive_candidates id_le 50 recovered) (0, 0) recovered
        (subst AllRevoked {x = revoke_all st.store} (sym same) (revoke_all-AllRevoked st.store)))
  where
    started : ResetState
    started = record st { store = revoke_all st.store }

    recovered : ResetState
    recovered = resolve_each (λ id. (faults id).recovery_works) (take_first 50 st.pending) started

    same : recovered.store ≡ revoke_all st.store
    same = resolve_each_store (λ id. (faults id).recovery_works) (take_first 50 st.pending) started

-- After the server has started, no cookie of an earlier session is answered by a session.
pub start_server-authenticate :
    (id_le : String → String → Bool) (updates : Bool) (faults : String → CleanFaults)
    (st st' : ResetState) (k : Codec) (now : Option ℕ) (cookie : Option Text) (name : Text)
    (s : Session) (store : SessionState)
    → start_server id_le updates faults st ≡ (returned tt, st')
    → authenticate k now cookie name st'.store ≢ (returned s, store)
unfolding authenticate
start_server-authenticate id_le updates faults st st' k now cookie name s store h g =
    from_cookie (read_session_cookie k cookie name) g
  where
    all : AllRevoked st'.store
    all = start_server-AllRevoked id_le updates faults st st' h

    from_cookie :
        (c : Outcome (Option Text)) → authenticate_token k now st'.store c ≡ (returned s, store) → ⊥
    from_cookie (thrown d) e = cc (ap (λ (y : Outcome Session × SessionState). y.0) e)
    from_cookie (returned none) e = cc (ap (λ (y : Outcome Session × SessionState). y.0) e)
    from_cookie (returned (some token)) e =
        let test = λ (r : SessionRow).
          (r.token_hash == k.sha256 (k.decode token))
          && is_current (time_or_clock now st'.store) r in
        elim (Option-cases (find_row test st'.store.sessions)) [
          | inl f ↦ cc (ap (λ (y : Outcome Session × SessionState). y.0) (rw f at e))
          | inr (r, f) ↦
              let (m, q) = find_row-mem test st'.store.sessions f in ground (arith, q, all r m)
        ]
