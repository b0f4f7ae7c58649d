-- ===== src/FakeExecutor/Dispatch.antt =====
-- executors/fake-executor.ts: dispatching and status lookups. The `finished` flag of a dispatch's
-- `finish` closure is a ticket that is open until `finish` is first called.
use cost_engine_orchestratio.Base.{
  ℕ, ◌+◌, ◌-◌, String, Bool, false, Option, none, some, List, [], ◌∷◌, ◌++◌, if◌then◌else◌, ◌==◌,
  nat_eq, string_eq, option_eq,
}
use cost_engine_orchestratio.Store.Status.{
  dataset_status_eq, job_status_eq, attempt_status_eq, definition_status_eq,
}
use cost_engine_orchestratio.Dispatch.Types.{
  DispatchCommand, DispatchResult, dispatch_accepted, already_exists, dispatch_rejected,
  dispatch_unknown, ExecutionIdentity, ExecutorStatus, run_running, run_succeeded, run_failed,
  run_not_found, run_unavailable,
}
use cost_engine_orchestratio.FakeExecutor.Maps.{
  map_get, map_set, map_delete, has_member, add_member, has_key,
}
use cost_engine_orchestratio.FakeExecutor.State.{
  Behavior, accept_run, reject_run, accept_then_unknown, unknown_without_creation, ExecutionState,
  state_running, state_succeeded, state_failed, Simulation, behavior_of, completion_of,
  ExternalExecution, FakeExecutor, SimulatedDispatch, execution_key, identity_of_command,
}

abbrev pub observed :
    String → DispatchResult → Bool → FakeExecutor → SimulatedDispatch × FakeExecutor
observed key result applied f = (
  record {
    result = result;
    decision = map_get key f.simulation_decisions;
    applied = applied;
    ticket = none;
  },
  f,
)

abbrev pub bind : String → Option Simulation → FakeExecutor → FakeExecutor
bind key none f = f
bind key (some simulation) f = record f {
  simulation_decisions = map_set key simulation f.simulation_decisions;
}

abbrev pub pending_count : Option ℕ → ℕ
pending_count none = 0
pending_count (some n) = n

unfoldable pub unbound :
    String → Option Simulation → String → FakeExecutor → SimulatedDispatch × FakeExecutor
unbound key none message f = observed key (dispatch_unknown message) false f
unbound key (some simulation) message f = (
  record {
    result = dispatch_unknown message;
    decision = map_get key f.simulation_decisions;
    applied = false;
    ticket = some f.next_ticket;
  },
  record f {
    pending_unbound =
        map_set key (pending_count (map_get key f.pending_unbound) + 1) f.pending_unbound;
    open_tickets = (f.next_ticket, key) ∷ f.open_tickets;
    next_ticket = f.next_ticket + 1;
  },
)

-- `this.scriptedBehaviors.shift() ?? this.defaultBehavior`
abbrev pub shift_behavior : List Behavior → FakeExecutor → Behavior × FakeExecutor
shift_behavior [] f = (f.default_behavior, f)
shift_behavior (b ∷ bs) f = (b, record f { scripted_behaviors = bs })

-- `simulation?.dispatch ?? this.scriptedBehaviors.shift() ?? this.defaultBehavior`
unfoldable pub next_behavior : Option Simulation → FakeExecutor → Behavior × FakeExecutor
next_behavior (some simulation) f = (behavior_of simulation, f)
next_behavior none f = shift_behavior f.scripted_behaviors f

abbrev pub rejection_message : String
rejection_message = "Fake executor rejected dispatch"

unfoldable pub create_run :
    String → DispatchCommand → Option Simulation → FakeExecutor → FakeExecutor
create_run key command simulation f = bind key simulation (record f {
  external_executions =
      map_set key (record { command = command; state = completion_of simulation })
        f.external_executions;
})

unfoldable pub by_behavior :
    String
    → DispatchCommand
    → Option Simulation
    → Behavior
    → FakeExecutor
    → SimulatedDispatch × FakeExecutor
by_behavior key command simulation reject_run f =
    if has_key (map_get key f.pending_unbound)
    then unbound key simulation
        "Fake rejection deferred while an earlier ambiguous dispatch is recording" f
    else observed key (dispatch_rejected rejection_message) (has_key simulation) (
        bind key simulation
          (record f { rejected_identities = add_member key f.rejected_identities }))
by_behavior key command simulation unknown_without_creation f =
    unbound key simulation "Fake executor returned an ambiguous result without creating a run" f
by_behavior key command simulation accept_then_unknown f =
    observed key (dispatch_unknown "Fake executor created the run but the response was lost")
      (has_key simulation) (create_run key command simulation f)
by_behavior key command simulation accept_run f =
    observed key dispatch_accepted (has_key simulation) (create_run key command simulation f)

unfoldable pub decide_unseen :
    String → DispatchCommand → Option Simulation → FakeExecutor → SimulatedDispatch × FakeExecutor
decide_unseen key command simulation f =
    let (behavior, f') = next_behavior simulation f in
    by_behavior key command simulation behavior f'

unfoldable pub decide_dispatch :
    DispatchCommand → Option Simulation → FakeExecutor → SimulatedDispatch × FakeExecutor
decide_dispatch command simulation before =
    let f = record before { dispatch_history = before.dispatch_history ++ command ∷ [] } in
    let key = execution_key (identity_of_command command) in
    if has_key (map_get key f.external_executions)
    then observed key already_exists false f
    else if has_member key f.rejected_identities
    then observed key (dispatch_rejected rejection_message) false f
    else decide_unseen key command simulation f

unfoldable pub dispatch_run : DispatchCommand → FakeExecutor → DispatchResult × FakeExecutor
dispatch_run command f = let (d, f') = decide_dispatch command none f in (d.result, f')

unfoldable pub dispatch_with_simulation :
    DispatchCommand → Simulation → FakeExecutor → SimulatedDispatch × FakeExecutor
dispatch_with_simulation command simulation f = decide_dispatch command (some simulation) f

-- the ticket's key, if `finish` was not called before
unfoldable pub ticket_key : ℕ → List (ℕ × String) → Option String
ticket_key t [] = none
ticket_key t ((u, key) ∷ rest) = if u == t then some key else ticket_key t rest

unfoldable pub close_ticket : ℕ → List (ℕ × String) → List (ℕ × String)
close_ticket t [] = []
close_ticket t ((u, key) ∷ rest) = if u == t then rest else (u, key) ∷ close_ticket t rest

unfoldable pub release_key : String → FakeExecutor → FakeExecutor
release_key key f =
    let remaining = pending_count (map_get key f.pending_unbound) - 1 in
    record f {
      pending_unbound =
          if remaining == 0
          then map_delete key f.pending_unbound
          else map_set key remaining f.pending_unbound;
    }

abbrev pub finish_open : ℕ → Option String → FakeExecutor → FakeExecutor
finish_open t none f = f
finish_open t (some key) f =
    release_key key (record f { open_tickets = close_ticket t f.open_tickets })

-- the `finish` of a dispatch that returned the ticket
unfoldable pub finish_ticket : ℕ → FakeExecutor → FakeExecutor
finish_ticket t f = finish_open t (ticket_key t f.open_tickets) f

abbrev pub status_of_state : ExecutionState → ExecutorStatus
status_of_state state_running = run_running
status_of_state state_succeeded = run_succeeded
status_of_state state_failed = run_failed

abbrev pub status_of_lookup : Option String → Option ExternalExecution → ExecutorStatus
status_of_lookup (some message) found = run_unavailable message
status_of_lookup none none = run_not_found
status_of_lookup none (some e) = status_of_state e.state

unfoldable pub get_execution_status :
    ExecutionIdentity → FakeExecutor → ExecutorStatus × FakeExecutor
get_execution_status identity before = (
  status_of_lookup before.unavailable_message
      (map_get (execution_key identity) before.external_executions),
  record before { status_lookup_history = before.status_lookup_history ++ identity ∷ [] },
)
