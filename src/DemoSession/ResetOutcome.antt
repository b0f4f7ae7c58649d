-- ===== src/DemoSession/ResetOutcome.antt =====
-- modules/demo-session/demo-session-reset.service.ts: what a cleanup has done when it ends. A lost answer
-- to COMMIT is never taken for a commit or a rollback: the database decides, or the session stays blocked.
use cost_engine_orchestratio.Base.{
  ℕ, String, Bool, true, false, not, ◌&&◌, ◌≡◌, ◌≢◌, inl, inr, refl, sym, ap, subst, ◌∙◌, Option,
  none, some, List, [], ◌∷◌, if◌then◌else◌, ◌==◌, ◌/=◌, nat_eq, string_eq, option_eq, find_row,
  any_row, select, update_rows, Bool-cases, ==-refl, not-true, arith,
}
use cost_engine_orchestratio.DemoSession.Errors.{
  DemoError, Outcome, returned, thrown, session_unavailable, reset_outcome_unknown, plain_error,
  returned_inj,
}
use cost_engine_orchestratio.DemoSession.Maps.{
  get_key, set_key, delete_key, get_key-set_key, get_key-delete_key,
}
use cost_engine_orchestratio.DemoSession.Context.{Session}
use cost_engine_orchestratio.DemoSession.Service.{
  SessionRow, SessionState, revoke, first_revocation,
}
use cost_engine_orchestratio.DemoSession.Coordinator.{
  ResetReservation, finish_reset, mark_unknown, is_reservation,
}
use cost_engine_orchestratio.DemoSession.Reset.{
  Pending, ResetState, reset_failed, release_session, release_fake, finish_reservation,
  cleaned_store, clean_transaction, undecided, read_outcome, read_row, resolved, resolve_unknown,
  after_resolution, may_clean, cleaned_row,
}

-- The session is revoked, and its company owns no series.
abbrev pub IsCleaned : String → SessionState → Type 0
IsCleaned id st =
    (r : SessionRow) × (find_row (λ x. x.id == id) st.sessions ≡ some r)
    × ((r.revoked_at == none) ≡ false)
    × (any_row (λ c. c == r.company_code) st.series_companies ≡ false)

-- The reservation is held by its object.
abbrev pub IsHeld : String → ℕ → ResetState → Type 0
IsHeld id object st =
    (r : ResetReservation) × (get_key id st.coordinator.resets ≡ some r) × (r.object ≡ object)

-- How a cleanup that started on a database ends.
pub data Ended (id : String) (object : ℕ) (before : ResetState) (undone : Type 0)
    : Outcome (Unit {0}) × ResetState → Type 0 where
  ended_committed :
      (st : ResetState)
      → IsCleaned id st.store
      → any_row (λ i. i == id) st.registry
        ≡ (any_row (λ i. i == id) before.registry && not (before.release_works id))
      → get_key id st.coordinator.resets ≡ none
      → Ended id object before undone (returned tt, st)
  ended_rolled_back :
      (e : DemoError) (st : ResetState)
      → e ≢ reset_outcome_unknown
      → undone
      → st.store ≡ before.store
      → st.registry ≡ before.registry
      → get_key id st.coordinator.resets ≡ none
      → Ended id object before undone (thrown e, st)
  ended_undecided :
      (st : ResetState)
      → get_key id st.coordinator.resets ≡ some (record { object = object; unknown = true })
      → st.registry ≡ before.registry
      → Ended id object before undone (thrown reset_outcome_unknown, st)

session_released :
    (id : String) (registry : List String)
    → any_row (λ i. i == id) (release_session id registry) ≡ false
unfolding any_row select
session_released id [] = refl
session_released id (i ∷ registry) = ground (arith, session_released id registry)

pub unregistered :
    (works : Bool) (id : String) (registry : List String)
    → any_row (λ i. i == id) (release_fake works id registry)
      ≡ (any_row (λ i. i == id) registry && not works)
unregistered true id registry = ground (arith, session_released id registry)
unregistered false id registry = ground arith

abbrev pub finished : String → Bool → ResetState → ResetState
finished id done st = record st {
  registry = if done then release_fake (st.release_works id) id st.registry else st.registry;
  pending = delete_key id st.pending;
  coordinator = record st.coordinator { resets = delete_key id st.coordinator.resets };
}

pub finish_held :
    (id : String) (object : ℕ) (done : Bool) (st : ResetState)
    → IsHeld id object st
    → finish_reservation id object done st ≡ (returned tt, finished id done st)
unfolding finish_reservation finish_reset
finish_held id object done st (r, e, o) =
    let hit : is_reservation object (get_key id st.coordinator.resets) ≡ true =
      rw e (rw o (==-refl object)) in
    rw hit refl

pub finished_key :
    (id : String) (done : Bool) (st : ResetState)
    → get_key id (finished id done st).coordinator.resets ≡ none
finished_key id done st = get_key-delete_key id id st.coordinator.resets ∙ rw (==-refl id) refl

marked : String → ℕ → Bool → ResetState → ResetState
marked id object inactive st = record st {
  coordinator = mark_unknown st.coordinator id object;
  pending = set_key id (record { object = object; inactive = inactive }) st.pending;
}

marked_key :
    (id : String) (object : ℕ) (inactive : Bool) (st : ResetState)
    → IsHeld id object st
    → get_key id (marked id object inactive st).coordinator.resets
      ≡ some (record { object = object; unknown = true })
unfolding marked mark_unknown
marked_key id object inactive st (r, e, o) =
    rw (e, o, ==-refl object)
      (get_key-set_key id id (record { object = object; unknown = true }) st.coordinator.resets
        ∙ rw (==-refl id) refl)

marked-IsHeld :
    (id : String) (object : ℕ) (inactive : Bool) (st : ResetState)
    → IsHeld id object st
    → IsHeld id object (marked id object inactive st)
marked-IsHeld id object inactive st held =
    (record { object = object; unknown = true }, marked_key id object inactive st held, refl)

some_row : {r r' : SessionRow} → ◌≡◌ {A = Option SessionRow} (some r) (some r') → r ≡ r'
some_row e = cc

same_row : {o : Option SessionRow} {r r' : SessionRow} → o ≡ some r → o ≡ some r' → r' ≡ r
same_row e f = cc

-- A row that is not revoked, or whose company owns a series, is not cleaned.
not-IsCleaned :
    (id : String) (st : SessionState) (r : SessionRow)
    → find_row (λ x. x.id == id) st.sessions ≡ some r
    → (not (r.revoked_at == none) && not (any_row (λ c. c == r.company_code) st.series_companies))
      ≡ false
    → ¬ IsCleaned id st
not-IsCleaned id st r f v (r', f', revoked, gone) =
    let e = same_row f f' in
    let revoked' = subst (λ (z : SessionRow). (z.revoked_at == none) ≡ false) e revoked in
    let gone' =
      subst (λ (z : SessionRow). any_row (λ c. c == z.company_code) st.series_companies ≡ false) e
        gone in
    ground (arith, v, revoked', gone')

module _ (id : String) (object : ℕ) (inactive : Bool) (st : ResetState)
    (held : IsHeld id object st) where
  abbrev Undone : Type 0
  Undone = ¬ IsCleaned id st.store

  pending_of : Pending
  pending_of = record { object = object; inactive = inactive }

  kept :
      Undone
      → Ended id object st Undone (
          after_resolution
            (resolved false (finish_reservation id object false (marked id object inactive st))))
  unfolding marked
  kept u =
      rw
        (finish_held id object false (marked id object inactive st)
          (marked-IsHeld id object inactive st held))
        (ended_rolled_back reset_failed _ (λ e. cc) u refl refl
          (finished_key id false (marked id object inactive st)))

  -- The reading of the row decides.
  row-Ended :
      (r : SessionRow) (revoked remaining : Bool) (was_inactive : Bool)
      → find_row (λ x. x.id == id) st.store.sessions ≡ some r
      → not (r.revoked_at == none) ≡ revoked
      → any_row (λ c. c == r.company_code) st.store.series_companies ≡ remaining
      → Ended id object st Undone (
          after_resolution (
            if revoked && remaining && not was_inactive
            then (undecided, marked id object inactive st)
            else resolved (revoked && not remaining) (
                finish_reservation id object
                  (revoked && not remaining)
                  (marked id object inactive st))))
  unfolding marked
  row-Ended r false remaining w f v m = kept (not-IsCleaned id st.store r f (ground (arith, v)))
  row-Ended r true false w f v m =
      rw
        (finish_held id object true (marked id object inactive st)
          (marked-IsHeld id object inactive st held))
        (ended_committed _ (r, f, not-true v, m) (unregistered (st.release_works id) id st.registry)
          (finished_key id true (marked id object inactive st)))
  row-Ended r true true false f v m =
      ended_undecided (marked id object inactive st) (marked_key id object inactive st held) refl
  row-Ended r true true true f v m = kept (not-IsCleaned id st.store r f (ground (arith, v, m)))

  read-Ended :
      (o : Option SessionRow)
      → find_row (λ x. x.id == id) st.store.sessions ≡ o
      → Ended id object st Undone
          (after_resolution (read_row id pending_of (marked id object inactive st) o))
  unfolding marked pending_of
  read-Ended none e =
      ended_undecided (marked id object inactive st) (marked_key id object inactive st held) refl
  read-Ended (some r) e = row-Ended r _ _ inactive e refl refl

  pub resolve_unknown-Ended :
      (works : Bool) → Ended id object st Undone (resolve_unknown id object inactive works st)
  unfolding resolve_unknown read_outcome marked pending_of
  resolve_unknown-Ended false =
      ended_undecided (marked id object inactive st) (marked_key id object inactive st held) refl
  resolve_unknown-Ended true = read-Ended _ refl

find_row-update :
    (id : String) (set : SessionRow → SessionRow) (rows : List SessionRow) (r : SessionRow)
    → ((x : SessionRow) → (set x).id ≡ x.id)
    → find_row (λ x. x.id == id) rows ≡ some r
    → find_row (λ x. x.id == id) (update_rows (λ x. x.id == id) set rows) ≡ some (set r)
unfolding find_row update_rows
find_row-update id set [] r same h = cc
find_row-update id set (x ∷ rows) r same h = elim (Bool-cases (x.id == id)) [
  | inl e ↦
      let hit : ((set x).id == id) ≡ true = ap (λ (k : String). k == id) (same x) ∙ e in
      rw (e, hit) (ap some (ap set (some_row (rw e at h))))
  | inr e ↦ rw (e, e) (find_row-update id set rows r same (sym (rw e refl) ∙ h))
]

removed_company :
    (company : String) (companies : List String)
    → any_row (λ c. c == company) (select (λ c. c /= company) companies) ≡ false
unfolding any_row select
removed_company company [] = refl
removed_company company (c ∷ companies) = ground (arith, removed_company company companies)

-- The transaction leaves the session revoked and its company without series.
cleaned_store-IsCleaned :
    (id : String) (st : SessionState) (r : SessionRow)
    → find_row (λ x. x.id == id) st.sessions ≡ some r
    → IsCleaned id (cleaned_store id r.company_code st)
unfolding revoke
cleaned_store-IsCleaned id st r e = (
  record r { revoked_at = first_revocation st.clock r.revoked_at },
  find_row-update id (λ x. record x { revoked_at = first_revocation st.clock x.revoked_at })
      st.sessions r (λ x. refl) e,
  now_revoked r.revoked_at,
  removed_company r.company_code st.series_companies,
)
  where
    now_revoked : (t : Option ℕ) → (first_revocation st.clock t == none) ≡ false
    now_revoked none = refl
    now_revoked (some t) = refl

pub clean_transaction-IsCleaned :
    (session : Option Session) (id : String) (st : ResetState) {store : SessionState}
    → clean_transaction session id st ≡ returned store
    → IsCleaned id store
unfolding clean_transaction
clean_transaction-IsCleaned session id st {store} h =
    of_row (find_row (λ x. x.id == id) st.store.sessions) refl h
  where
    of_row :
        (o : Option SessionRow)
        → find_row (λ x. x.id == id) st.store.sessions ≡ o
        → cleaned_row session id st o ≡ returned store
        → IsCleaned id store
    of_row none e g = cc
    of_row (some r) e g =
        of_tests (not (may_clean session st.store r))
          (any_row (λ c. c == r.company_code) st.foreign) g
      where
        of_tests :
            (a b : Bool)
            → (if a
                then thrown session_unavailable
                else if b
                then thrown (plain_error "Foreign snapshot references demo ownership graph")
                else returned (cleaned_store id r.company_code st.store))
              ≡ returned store
            → IsCleaned id store
        of_tests true b k = cc
        of_tests false true k = cc
        of_tests false false k =
            subst (IsCleaned id) (returned_inj k) (cleaned_store-IsCleaned id st.store r e)
