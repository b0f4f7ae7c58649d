-- ===== src/FakeExecutor/Operations.antt =====
-- executors/fake-executor.ts: each operation, and the runs and rejections that an executor has.
use cost_engine_orchestratio.Base.{
  ℕ, String, ◌≡◌, refl, sym, ap, subst, inl, inr, true, false, Option, none, some, List, [], ◌∷◌,
  ◌++◌, Memᴰ, Bool-cases, ◌==◌, nat_eq, string_eq, option_eq, ==-refl, select,
}
use cost_engine_orchestratio.Store.Status.{
  dataset_status_eq, job_status_eq, attempt_status_eq, definition_status_eq,
}
use cost_engine_orchestratio.Dispatch.Types.{DispatchCommand, ExecutionIdentity}
use cost_engine_orchestratio.FakeExecutor.Maps.{map_get, has_member, has_key}
use cost_engine_orchestratio.FakeExecutor.State.{
  Behavior, accept_run, reject_run, accept_then_unknown, unknown_without_creation, ExecutionState,
  Simulation, ExternalExecution, FakeExecutor, execution_key, identity_of_command,
  set_execution_state, set_execution_state_by_dag_run_id,
}
use cost_engine_orchestratio.FakeExecutor.Dispatch.{
  bind, unbound, next_behavior, create_run, by_behavior, decide_unseen, decide_dispatch,
  finish_ticket, release_key, get_execution_status, ticket_key,
}
use cost_engine_orchestratio.Base.Rows.{select-mem, mem-cons_cases}
use cost_engine_orchestratio.FakeExecutor.State.{set_found_state, set_only_state, only_entry}
use cost_engine_orchestratio.FakeExecutor.Growth.{
  Grows, Grows-same, Grows-created, Grows-updated, Grows-rejected, Grows-trans,
}
use cost_engine_orchestratio.FakeExecutor.Dispatch.{shift_behavior, finish_open}

bind-externals :
    (key : String) (simulation : Option Simulation) (f : FakeExecutor)
    → (bind key simulation f).external_executions ≡ f.external_executions
bind-externals key none f = refl
bind-externals key (some simulation) f = refl

bind-rejected :
    (key : String) (simulation : Option Simulation) (f : FakeExecutor)
    → (bind key simulation f).rejected_identities ≡ f.rejected_identities
bind-rejected key none f = refl
bind-rejected key (some simulation) f = refl

unbound-Grows :
    (key : String) (simulation : Option Simulation) (message : String) (f : FakeExecutor)
    → Grows f (unbound key simulation message f).1
unfolding unbound
unbound-Grows key none message f = Grows-same refl refl
unbound-Grows key (some simulation) message f = Grows-same refl refl

module _ (key : String) (command : DispatchCommand) (simulation : Option Simulation)
    (f : FakeExecutor) (absent : has_key (map_get key f.external_executions) ≡ false)
    (free : has_member key f.rejected_identities ≡ false) where
  create_run-Grows : Grows f (create_run key command simulation f)
  unfolding create_run
  create_run-Grows =
      Grows-created key _ free (bind-externals key simulation _) (bind-rejected key simulation _)

  by_behavior-Grows : (b : Behavior) → Grows f (by_behavior key command simulation b f).1
  unfolding by_behavior
  by_behavior-Grows reject_run = elim (Bool-cases (has_key (map_get key f.pending_unbound))) [
    | inl recording ↦ rw recording (unbound-Grows key simulation _ f)
    | inr idle ↦ rw idle (
        Grows-rejected key absent (bind-externals key simulation _)
          (bind-rejected key simulation _))
  ]
  by_behavior-Grows unknown_without_creation = unbound-Grows key simulation _ f
  by_behavior-Grows accept_then_unknown = create_run-Grows
  by_behavior-Grows accept_run = create_run-Grows

shift_behavior-externals :
    (l : List Behavior) (f : FakeExecutor)
    → (shift_behavior l f).1.external_executions ≡ f.external_executions
shift_behavior-externals [] f = refl
shift_behavior-externals (b ∷ bs) f = refl

next_behavior-externals :
    (simulation : Option Simulation) (f : FakeExecutor)
    → (next_behavior simulation f).1.external_executions ≡ f.external_executions
unfolding next_behavior
next_behavior-externals (some simulation) f = refl
next_behavior-externals none f = shift_behavior-externals f.scripted_behaviors f

shift_behavior-rejected :
    (l : List Behavior) (f : FakeExecutor)
    → (shift_behavior l f).1.rejected_identities ≡ f.rejected_identities
shift_behavior-rejected [] f = refl
shift_behavior-rejected (b ∷ bs) f = refl

next_behavior-rejected :
    (simulation : Option Simulation) (f : FakeExecutor)
    → (next_behavior simulation f).1.rejected_identities ≡ f.rejected_identities
unfolding next_behavior
next_behavior-rejected (some simulation) f = refl
next_behavior-rejected none f = shift_behavior-rejected f.scripted_behaviors f

decide_unseen-Grows :
    (key : String) (command : DispatchCommand) (simulation : Option Simulation) (f : FakeExecutor)
    → has_key (map_get key f.external_executions) ≡ false
    → has_member key f.rejected_identities ≡ false
    → Grows f (decide_unseen key command simulation f).1
unfolding decide_unseen
decide_unseen-Grows key command simulation f absent free =
    let f' = (next_behavior simulation f).1 in
    let ee : f'.external_executions ≡ f.external_executions =
      next_behavior-externals simulation f in
    let er : f'.rejected_identities ≡ f.rejected_identities = next_behavior-rejected simulation f in
    Grows-trans {g = f'} (Grows-same ee er) (
      by_behavior-Grows key command simulation f' (rw ee absent) (rw er free)
        (next_behavior simulation f).0)

abbrev pub key_of : DispatchCommand → String
key_of c = execution_key (identity_of_command c)

abbrev noted : DispatchCommand → FakeExecutor → FakeExecutor
noted command f = record f { dispatch_history = f.dispatch_history ++ command ∷ [] }

pub decide_dispatch-Grows :
    (command : DispatchCommand) (simulation : Option Simulation) (f : FakeExecutor)
    → Grows f (decide_dispatch command simulation f).1
unfolding decide_dispatch
decide_dispatch-Grows command simulation f =
    elim (Bool-cases (has_key (map_get (key_of command) f.external_executions))) [
      | inl there ↦ rw there (Grows-same refl refl)
      | inr absent ↦ elim (Bool-cases (has_member (key_of command) f.rejected_identities)) [
        | inl told ↦ rw (absent, told) (Grows-same refl refl)
        | inr free ↦
            rw (absent, free)
              (Grows-trans {g = noted command f} (Grows-same refl refl) (
                decide_unseen-Grows (key_of command) command simulation (noted command f) absent
                  free))
      ]
    ]

set_found_state-Grows :
    (key : String) (state : ExecutionState) (o : Option ExternalExecution) (f : FakeExecutor)
    → map_get key f.external_executions ≡ o
    → Grows f (set_found_state key state o f).1
set_found_state-Grows key state none f h = Grows-same refl refl
set_found_state-Grows key state (some e) f h =
    Grows-updated key (record e { state = state }) (rw h refl) refl refl

pub set_execution_state-Grows :
    (i : ExecutionIdentity) (state : ExecutionState) (f : FakeExecutor)
    → Grows f (set_execution_state i state f).1
unfolding set_execution_state
set_execution_state-Grows i state f = set_found_state-Grows (execution_key i) state _ f refl

only_entry-in :
    (l : List (String × ExternalExecution)) {key : String} {e : ExternalExecution}
    → only_entry l ≡ some (key, e)
    → Memᴰ (key, e) l
only_entry-in [] h = cc
only_entry-in (x ∷ []) h = Memᴰ.head cc
only_entry-in (x ∷ y ∷ l) h = cc

entry-created :
    (l : List (String × ExternalExecution)) {key : String} {e : ExternalExecution}
    → Memᴰ (key, e) l
    → has_key (map_get key l) ≡ true
unfolding map_get
entry-created [] m = elim m [ ]
entry-created ((j, x) ∷ l) {key} m = elim (Bool-cases (j == key)) [
  | inl hit ↦ rw hit refl
  | inr miss ↦ elim (mem-cons_cases m) [
    | inl e ↦
        let same : key ≡ j = ap (λ (p : String × ExternalExecution). p.0) e in
        let hit : (j == key) ≡ true =
          subst (λ (i : String). (j == i) ≡ true) (sym same) (==-refl j) in
        cc
    | inr n ↦ rw miss (entry-created l n)
  ]
]

set_only_state-Grows :
    (state : ExecutionState) (l : List (String × ExternalExecution))
    (o : Option (String × ExternalExecution)) (f : FakeExecutor)
    → only_entry l ≡ o
    → ((p : String × ExternalExecution) → Memᴰ p l → Memᴰ p f.external_executions)
    → Grows f (set_only_state state o f).1
set_only_state-Grows state l none f h inside = Grows-same refl refl
set_only_state-Grows state l (some (key, e)) f h inside =
    Grows-updated key (record e { state = state })
      (entry-created f.external_executions (inside (key, e) (only_entry-in l h))) refl refl

pub set_execution_state_by_dag_run_id-Grows :
    (run_id : String) (state : ExecutionState) (f : FakeExecutor)
    → Grows f (set_execution_state_by_dag_run_id run_id state f).1
unfolding set_execution_state_by_dag_run_id
set_execution_state_by_dag_run_id-Grows run_id state f =
    set_only_state-Grows state
      (select (λ e. e.1.command.airflow_dag_run_id == run_id) f.external_executions) _ f refl
      (λ p m.
        let (n, _) =
          select-mem (λ e. e.1.command.airflow_dag_run_id == run_id) f.external_executions m in
        n)

finish_open-Grows : (t : ℕ) (o : Option String) (f : FakeExecutor) → Grows f (finish_open t o f)
unfolding release_key
finish_open-Grows t none f = Grows-same refl refl
finish_open-Grows t (some key) f = Grows-same refl refl

pub finish_ticket-Grows : (t : ℕ) (f : FakeExecutor) → Grows f (finish_ticket t f)
unfolding finish_ticket
finish_ticket-Grows t f = finish_open-Grows t (ticket_key t f.open_tickets) f

pub get_execution_status-Grows :
    (i : ExecutionIdentity) (f : FakeExecutor) → Grows f (get_execution_status i f).1
unfolding get_execution_status
get_execution_status-Grows i f = Grows-same refl refl
