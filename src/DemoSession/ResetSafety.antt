-- ===== src/DemoSession/ResetSafety.antt =====
-- modules/demo-session/demo-session-reset.service.ts: what the answer of a reset says of the database,
-- of the executor of the session, and of its reservation.
use cost_engine_orchestratio.Base.{
  ℕ, String, Bool, true, false, not, ◌&&◌, ◌||◌, ◌≡◌, ◌≢◌, ◌⊎◌, inl, inr, refl, subst, ◌∙◌, Option,
  none, some, List, if◌then◌else◌, ◌==◌, nat_eq, string_eq, option_eq, any_row, Bool-cases, ==-refl,
  arith,
}
use cost_engine_orchestratio.DemoSession.Errors.{
  DemoError, Outcome, returned, thrown, session_unavailable, reset_conflict, resource_unavailable,
  queue_full, allocation_exhausted, demo_error, reset_outcome_unknown, plain_error, ◌>>◌,
}
use cost_engine_orchestratio.DemoSession.Maps.{get_key, get_key-set_key}
use cost_engine_orchestratio.DemoSession.Context.{Session, assert_trusted}
use cost_engine_orchestratio.DemoSession.Service.{
  SessionState, CommitAnswer, confirmed, lost_applied, lost_unapplied,
}
use cost_engine_orchestratio.DemoSession.Coordinator.{
  Coordinator, ResetReservation, try_begin_reset, reserve_cleanup, reserve, admit,
  assert_not_resetting, has_queue, sessions_full, reset_error,
}
use cost_engine_orchestratio.DemoSession.Reset.{
  ResetState, CleanFaults, finish_reservation, after_rollback, resolve_unknown, run_clean,
  abort_clean, commit_clean, clean, clean_reserved, clean_transaction, reset, is_inactive,
  rollback_error,
}
use cost_engine_orchestratio.DemoSession.ResetOutcome.{
  IsCleaned, IsHeld, Ended, ended_committed, ended_rolled_back, ended_undecided, finished,
  finish_held, finished_key, unregistered, resolve_unknown-Ended, clean_transaction-IsCleaned,
}
use cost_engine_orchestratio.DemoSession.Queues.Resets.{reserve_cleanup_lem}

rollback_known : (e : DemoError) → rollback_error e ≢ reset_outcome_unknown
rollback_known session_unavailable h = cc
rollback_known resource_unavailable h = cc
rollback_known queue_full h = cc
rollback_known reset_conflict h = cc
rollback_known reset_outcome_unknown h = cc
rollback_known allocation_exhausted h = cc
rollback_known (demo_error c s) h = cc
rollback_known (plain_error t) h = cc

any_reason :
    (id : String) (object : ℕ) (before : ResetState) (undone : Type 0)
    (r : Outcome (Unit {0}) × ResetState)
    → Ended id object before undone r
    → Ended id object before (Unit {0}) r
any_reason id object before undone r (ended_committed st c g k) = ended_committed st c g k
any_reason id object before undone r (ended_rolled_back e st n u s g k) =
    ended_rolled_back e st n tt s g k
any_reason id object before undone r (ended_undecided st k g) = ended_undecided st k g

-- The database has the cleanup, so that its outcome cannot be read as a rollback.
applied :
    (id : String) (object : ℕ) (before : ResetState) (store : SessionState)
    (r : Outcome (Unit {0}) × ResetState)
    → IsCleaned id store
    → Ended id object (record before { store = store }) (¬ IsCleaned id store) r
    → Ended id object before (Unit {0}) r
applied id object before store r done (ended_committed st c g k) = ended_committed st c g k
applied id object before store r done (ended_rolled_back e st n u s g k) = absurd (u done)
applied id object before store r done (ended_undecided st k g) = ended_undecided st k g

module _ (id : String) (object : ℕ) (inactive : Bool) (f : CleanFaults) (st : ResetState)
    (held : IsHeld id object st) where
  abort-Ended :
      (e : DemoError) → Ended id object st (Unit {0}) (abort_clean id object inactive f e st)
  abort-Ended e = by_test (f.rollback_works || not f.connects)
    where
      by_test :
          (b : Bool)
          → Ended id object st (Unit {0}) (
              if b
              then after_rollback e (finish_reservation id object false st)
              else resolve_unknown id object inactive f.recovery_works st)
      by_test true = rw (finish_held id object false st held) (
          ended_rolled_back (rollback_error e) (finished id false st) (rollback_known e) tt refl
            refl (finished_key id false st))
      by_test false =
          any_reason id object st _ _
            (resolve_unknown-Ended id object inactive st held f.recovery_works)

  commit-Ended :
      (store : SessionState)
      → IsCleaned id store
      → (c : CommitAnswer)
      → Ended id object st (Unit {0}) (commit_clean id object inactive f c store st)
  commit-Ended store done confirmed =
      rw (finish_held id object true (record st { store = store }) held) (
        ended_committed (finished id true (record st { store = store })) done
          (unregistered (st.release_works id) id st.registry)
          (finished_key id true (record st { store = store })))
  commit-Ended store done lost_applied =
      applied id object st store _ done (
        resolve_unknown-Ended id object inactive (record st { store = store }) held
          f.recovery_works)
  commit-Ended store done lost_unapplied =
      any_reason id object st _ _
        (resolve_unknown-Ended id object inactive st held f.recovery_works)

pub clean-Ended :
    (id : String) (object : ℕ) (session : Option Session) (f : CleanFaults) (st : ResetState)
    → IsHeld id object st
    → Ended id object st (Unit {0}) (clean id object session f st)
unfolding clean
clean-Ended id object session f st held = connected f.connects
  where
    transacted :
        (r : Outcome SessionState)
        → clean_transaction session id st ≡ r
        → Ended id object st (Unit {0}) (run_clean id object (is_inactive session) f st r)
    transacted (thrown e) h = abort-Ended id object (is_inactive session) f st held e
    transacted (returned store) h = before_commit f.before_commit_throws
      where
        before_commit :
            (b : Bool)
            → Ended id object st (Unit {0}) (
                if b
                then abort_clean id object (is_inactive session) f (plain_error "beforeCommit") st
                else commit_clean id object (is_inactive session) f f.commit store st)
        before_commit true =
            abort-Ended id object (is_inactive session) f st held (plain_error "beforeCommit")
        before_commit false =
            commit-Ended id object (is_inactive session) f st held store
              (clean_transaction-IsCleaned session id st h) f.commit

    connected :
        (b : Bool)
        → Ended id object st (Unit {0}) (
            if b
            then run_clean id object (is_inactive session) f st (clean_transaction session id st)
            else abort_clean id object (is_inactive session) f (plain_error "connect") st)
    connected true = transacted (clean_transaction session id st) refl
    connected false = abort-Ended id object (is_inactive session) f st held (plain_error "connect")

-- What an answer says of the database, the registry and the reservation.
abbrev Says : String → SessionState → List String → Bool → Outcome (Unit {0}) → ResetState → Type 0
Says id store registry works (returned _) st =
    IsCleaned id st.store
    × (any_row (λ i. i == id) st.registry ≡ (any_row (λ i. i == id) registry && not works))
    × (get_key id st.coordinator.resets ≡ none)
Says id store registry works (thrown e) st =
    ((e ≢ reset_outcome_unknown) × (st.store ≡ store) × (st.registry ≡ registry))
    ⊎ ((e ≡ reset_outcome_unknown)
        × ((r : ResetReservation) × (get_key id st.coordinator.resets ≡ some r)
            × (r.unknown ≡ true)))

Ended-Says :
    (id : String) (object : ℕ) (before : ResetState) (r : Outcome (Unit {0}) × ResetState)
    → Ended id object before (Unit {0}) r
    → Says id before.store before.registry (before.release_works id) r.0 r.1
Ended-Says id object before r (ended_committed st c g k) = (c, g, k)
Ended-Says id object before r (ended_rolled_back e st n u s g k) = inl (n, s, g)
Ended-Says id object before r (ended_undecided st k g) = inr (refl, (_, k, refl))

reserve-IsHeld :
    (c : Coordinator) (id : String) (st : ResetState)
    → IsHeld id c.next_reservation (record st { coordinator = reserve c id })
reserve-IsHeld c id st = (
  record { object = c.next_reservation; unknown = false },
  get_key-set_key id id (record { object = c.next_reservation; unknown = false }) c.resets
      ∙ rw (==-refl id) refl,
  refl,
)

reserved-Says :
    (c : Coordinator) (id : String) (session : Option Session) (f : CleanFaults) (st : ResetState)
    (x : ℕ × Coordinator)
    → reserve_cleanup c id ≡ returned x
    → Says id st.store st.registry
        (st.release_works id)
        (clean_reserved id session f st (returned x)).0
        (clean_reserved id session f st (returned x)).1
reserved-Says c id session f st x h =
    subst
      (λ (y : ℕ × Coordinator).
        Says id st.store st.registry (st.release_works id)
          (clean_reserved id session f st (returned y)).0
          (clean_reserved id session f st (returned y)).1)
      (reserve_cleanup_lem c id h).3
      (Ended-Says id c.next_reservation (record st { coordinator = reserve c id }) _
        (clean-Ended id c.next_reservation session f (record st { coordinator = reserve c id })
          (reserve-IsHeld c id st)))

-- A refusal of the reservation.
Refused : Coordinator → String → DemoError → Type 0
Refused c id e =
    (e ≢ reset_outcome_unknown)
    ⊎ ((e ≡ reset_outcome_unknown)
        × ((r : ResetReservation) × (get_key id c.resets ≡ some r) × (r.unknown ≡ true)))

reserve-Refused :
    (c : Coordinator) (id : String) (e : DemoError)
    → reserve_cleanup c id ≡ thrown e
    → Refused c id e
unfolding Refused reserve_cleanup assert_not_resetting
reserve-Refused c id e h = of_reset (get_key id c.resets) refl h
  where
    entry : Outcome (ℕ × Coordinator)
    entry = returned (c.next_reservation, reserve c id)

    rest : Bool → Bool → Outcome (ℕ × Coordinator)
    rest a b = if a then thrown reset_conflict else if b then thrown reset_conflict else entry

    conflict : (a b : Bool) → rest a b ≡ thrown e → e ≢ reset_outcome_unknown
    conflict true b g = λ k. cc
    conflict false true g = λ k. cc
    conflict false false g = cc

    of_reset :
        (o : Option ResetReservation)
        → get_key id c.resets ≡ o
        → (reset_error o >> rest (has_queue (get_key id c.queues)) (sessions_full c)) ≡ thrown e
        → (e ≢ reset_outcome_unknown)
          ⊎ ((e ≡ reset_outcome_unknown)
              × ((r : ResetReservation) × (get_key id c.resets ≡ some r) × (r.unknown ≡ true)))
    of_reset none k g = inl (conflict (has_queue (get_key id c.queues)) (sessions_full c) g)
    of_reset (some r) k g = elim (Bool-cases r.unknown) [
      | inl u ↦ inr (ground (arith, u, g), (r, k, u))
      | inr u ↦ inl (ground (arith, u, g))
    ]

-- The answer of a whole cleanup, after its reservation.
cleanup-Says :
    (id : String) (session : Option Session) (f : CleanFaults) (st : ResetState)
    (x : Outcome (ℕ × Coordinator))
    → reserve_cleanup st.coordinator id ≡ x
    → Says id st.store st.registry
        (st.release_works id)
        (clean_reserved id session f st x).0
        (clean_reserved id session f st x).1
unfolding Refused
cleanup-Says id session f st (returned x) h = reserved-Says st.coordinator id session f st x h
cleanup-Says id session f st (thrown e) h = elim (reserve-Refused st.coordinator id e h) [
  | inl n ↦ inl (n, refl, refl)
  | inr u ↦ inr u
]

reset-Says :
    (s : Session) (f : CleanFaults) (st : ResetState)
    → Says s.session_id st.store st.registry
        (st.release_works s.session_id)
        (reset s f st).0
        (reset s f st).1
unfolding reset try_begin_reset assert_trusted
reset-Says s f st = elim (Bool-cases (any_row (λ o. o == s.object) st.coordinator.contexts)) [
  | inr stranger ↦ rw stranger (inl ((λ e. cc), refl, refl))
  | inl trusted ↦ rw trusted (cleanup-Says s.session_id (some s) f st _ refl)
]

module _ (s : Session) (f : CleanFaults) (st : ResetState) (st' : ResetState) where
  -- A reset that returns has revoked the session, its company owns no series, its reservation is gone, and
  -- the session has an executor in the registry only if it had one and releaseSession threw for it.
  pub reset_returned :
      reset s f st ≡ (returned tt, st')
      → IsCleaned s.session_id st'.store
        × (any_row (λ i. i == s.session_id) st'.registry
            ≡ (any_row (λ i. i == s.session_id) st.registry && not (st.release_works s.session_id)))
        × (get_key s.session_id st'.coordinator.resets ≡ none)
  reset_returned h =
      subst
        (λ (x : Outcome (Unit {0}) × ResetState).
          Says s.session_id st.store st.registry (st.release_works s.session_id) x.0 x.1)
        h (reset-Says s f st)

  -- A reset that throws another error than the unknown outcome has changed no row and no executor.
  pub reset_failed_unchanged :
      (e : DemoError)
      → reset s f st ≡ (thrown e, st')
      → e ≢ reset_outcome_unknown
      → (st'.store ≡ st.store) × (st'.registry ≡ st.registry)
  reset_failed_unchanged e h n =
      elim (subst
        (λ (x : Outcome (Unit {0}) × ResetState).
          Says s.session_id st.store st.registry (st.release_works s.session_id) x.0 x.1)
        h (reset-Says s f st)) [ inl k ↦ (k.1, k.2) | inr k ↦ absurd (n k.0) ]

  -- After a reset that throws the unknown outcome, no operation of the session is admitted.
  pub reset_unknown-admit :
      (parallel : Bool)
      → assert_trusted st'.coordinator.contexts s ≡ returned tt
      → reset s f st ≡ (thrown reset_outcome_unknown, st')
      → admit st'.coordinator s parallel ≡ thrown reset_outcome_unknown
  unfolding admit assert_not_resetting
  reset_unknown-admit parallel trusted h =
      elim (subst
        (λ (x : Outcome (Unit {0}) × ResetState).
          Says s.session_id st.store st.registry (st.release_works s.session_id) x.0 x.1)
        h (reset-Says s f st)) [
          | inl k ↦ absurd (k.0 refl)
          | inr k ↦ rw (trusted, k.1.1, k.1.2) refl
        ]
