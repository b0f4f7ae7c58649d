-- ===== src/DemoSession/Maintenance.antt =====
-- modules/demo-session/demo-session-reset.service.ts: the recovery of pending resets, the cleanup of
-- inactive sessions, and the start of the server.
use cost_engine_orchestratio.Base.{
  ℕ, zero, suc, String, Bool, not, ◌&&◌, ◌||◌, none, some, List, [], ◌∷◌, if◌then◌else◌, ◌==◌,
  nat_eq, string_eq, option_eq, ltb, leb, length, any_row, select, count_rows, update_rows, sort_by,
  map,
}
use cost_engine_orchestratio.DemoSession.Errors.{Outcome, returned, thrown, plain_error}
use cost_engine_orchestratio.DemoSession.Service.{SessionRow, SessionState, is_current}
use cost_engine_orchestratio.DemoSession.Reset.{
  Pending, ResetState, CleanFaults, read_outcome, cleanup_inactive_session,
}

-- assertBatchSize
abbrev pub is_batch_size : ℕ → Bool
is_batch_size limit = leb 1 limit && leb limit 1000

-- slice(0, limit), and LIMIT
unfoldable pub take_first {ℓ} : {A : Type ℓ} → ℕ → List A → List A
take_first zero xs = []
take_first (suc n) [] = []
take_first (suc n) (x ∷ xs) = x ∷ take_first n xs

-- `for (const entry of …) await this.resolve(entry)`; `works` tells of each recovery connection
unfoldable pub resolve_each : (String → Bool) → List (String × Pending) → ResetState → ResetState
unfolding read_outcome
resolve_each works [] st = st
resolve_each works ((id, p) ∷ entries) st =
    resolve_each works entries (read_outcome id p (works id) st).1

-- recoverPendingResets
unfoldable pub recover_pending_resets : ℕ → (String → Bool) → ResetState → Outcome ℕ × ResetState
unfolding resolve_each take_first
recover_pending_resets limit works st =
    let st' = resolve_each works (take_first limit st.pending) st in
    if is_batch_size limit
    then (returned (length st'.pending), st')
    else (thrown (plain_error "Invalid cleanup batch size"), st)

-- revoked or expired, with data or an executor
abbrev pub is_inactive_remnant : ResetState → SessionRow → Bool
is_inactive_remnant st r =
    not (is_current st.store.clock r)
    && (any_row (λ c. c == r.company_code) st.store.series_companies
        || any_row (λ i. i == r.id) st.registry)

abbrev pub is_pending : ResetState → SessionRow → Bool
is_pending st r = any_row (λ i. i == r.id) (map (λ (e : String × Pending). e.0) st.pending)

-- ORDER BY created_at, id: `id_le` is the database's order of ids
abbrev pub older_first : (String → String → Bool) → SessionRow → SessionRow → Bool
older_first id_le a b =
    ltb a.created_at b.created_at || ((a.created_at == b.created_at) && id_le a.id b.id)

unfoldable pub inactive_candidates : (String → String → Bool) → ℕ → ResetState → List SessionRow
unfolding select sort_by take_first any_row
inactive_candidates id_le limit st = take_first limit (
    sort_by (older_first id_le)
      (select (λ r. is_inactive_remnant st r && not (is_pending st r)) st.store.sessions))

-- the result of maintainInactiveSessions
pub record MaintenanceResult : Type 0 where
  pub cleaned : ℕ
  pub failed : ℕ
  pub pending : ℕ

abbrev pub count_answer : Outcome (Unit {0}) → ℕ × ℕ → ℕ × ℕ
count_answer (returned _) (cleaned, failed) = (suc cleaned, failed)
count_answer (thrown _) (cleaned, failed) = (cleaned, suc failed)

-- the loop over the candidates; `faults` tells what each cleanup meets
unfoldable pub cleanup_each :
    (String → CleanFaults) → List SessionRow → ℕ × ℕ → ResetState → (ℕ × ℕ) × ResetState
unfolding cleanup_inactive_session
cleanup_each faults [] counts st = (counts, st)
cleanup_each faults (r ∷ rows) counts st =
    let (answer, st') = cleanup_inactive_session r.id (faults r.id) st in
    cleanup_each faults rows (count_answer answer counts) st'

abbrev pub maintenance_result : (ℕ × ℕ) × ResetState → MaintenanceResult × ResetState
maintenance_result ((cleaned, failed), st) = (
  record {
    cleaned = cleaned;
    failed = failed;
    pending = count_rows (λ r. is_pending st r || is_inactive_remnant st r) st.store.sessions;
  },
  st,
)

-- maintainInactiveSessions
unfoldable pub maintain_inactive_sessions :
    (String → String → Bool)
    → ℕ
    → (String → CleanFaults)
    → ResetState
    → Outcome MaintenanceResult × ResetState
unfolding resolve_each take_first inactive_candidates cleanup_each count_rows
maintain_inactive_sessions id_le limit faults st =
    let recovered =
      resolve_each (λ id. (faults id).recovery_works) (take_first limit st.pending) st in
    let (result, st') =
      maintenance_result
        (cleanup_each faults (inactive_candidates id_le limit recovered) (0, 0) recovered) in
    if is_batch_size limit
    then (returned result, st')
    else (thrown (plain_error "Invalid cleanup batch size"), st)

-- UPDATE demo_sessions SET revoked_at = clock_timestamp() WHERE revoked_at IS NULL
abbrev pub revoke_all : SessionState → SessionState
revoke_all st = record st {
  sessions =
      update_rows (λ r. r.revoked_at == none) (λ r. record r { revoked_at = some st.clock })
        st.sessions;
}

-- startServer: `updates` tells whether the statement is acknowledged
unfoldable pub start_server :
    (String → String → Bool)
    → Bool
    → (String → CleanFaults)
    → ResetState
    → Outcome (Unit {0}) × ResetState
unfolding maintain_inactive_sessions update_rows
start_server id_le updates faults st =
    if updates
    then (
      returned tt,
      (maintain_inactive_sessions id_le 50 faults (record st { store = revoke_all st.store })).1,
    )
    else (thrown (plain_error "Demo startup session invalidation failed"), st)
