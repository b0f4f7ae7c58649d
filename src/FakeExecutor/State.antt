-- ===== src/FakeExecutor/State.antt =====
-- executors/fake-executor.ts: the state of an executor that keeps its runs in memory, and what sets it.
use cost_engine_orchestratio.Base.{
  ℕ, String, Bool, true, false, ◌||◌, Option, none, some, List, [], ◌∷◌, ◌++◌, if◌then◌else◌, ◌==◌,
  nat_eq, string_eq, option_eq, select,
}
use cost_engine_orchestratio.Store.Status.{
  dataset_status_eq, job_status_eq, attempt_status_eq, definition_status_eq,
}
use Prim.Native.String.{◌++◌ as ◌++ₛ◌}
use cost_engine_orchestratio.Dispatch.Types.{DispatchCommand, DispatchResult, ExecutionIdentity}
use cost_engine_orchestratio.FakeExecutor.Maps.{map_get, map_set, has_member, has_key}

pub data Behavior : Type 0 where
  accept_run reject_run accept_then_unknown unknown_without_creation : Behavior

pub data ExecutionState : Type 0 where
  state_running state_succeeded state_failed : ExecutionState

-- FakeRunSimulation
pub data Simulation : Type 0 where
  simulate_accept simulate_accept_then_unknown : ExecutionState → Simulation
  simulate_reject simulate_unknown : Simulation

abbrev pub behavior_of : Simulation → Behavior
behavior_of (simulate_accept _) = accept_run
behavior_of (simulate_accept_then_unknown _) = accept_then_unknown
behavior_of simulate_reject = reject_run
behavior_of simulate_unknown = unknown_without_creation

-- `simulation && 'completion' in simulation ? simulation.completion : 'RUNNING'`
abbrev pub completion_of : Option Simulation → ExecutionState
completion_of (some (simulate_accept state)) = state
completion_of (some (simulate_accept_then_unknown state)) = state
completion_of _ = state_running

pub record ExternalExecution : Type 0 where
  pub command : DispatchCommand
  pub state : ExecutionState

pub record FakeExecutor : Type 0 where
  pub external_executions : List (String × ExternalExecution)
  pub rejected_identities : List String
  pub simulation_decisions : List (String × Simulation)
  pub pending_unbound : List (String × ℕ)
  pub open_tickets : List (ℕ × String)
  pub next_ticket : ℕ
  pub dispatch_history : List DispatchCommand
  pub status_lookup_history : List ExecutionIdentity
  pub scripted_behaviors : List Behavior
  pub default_behavior : Behavior
  pub unavailable_message : Option String

-- FakeSimulatedDispatch; `ticket` is what `finish` releases
pub record SimulatedDispatch : Type 0 where
  pub result : DispatchResult
  pub decision : Option Simulation
  pub applied : Bool
  pub ticket : Option ℕ

unfoldable pub execution_key : ExecutionIdentity → String
execution_key i = (i.airflow_dag_id ++ₛ "\0") ++ₛ i.airflow_dag_run_id

abbrev pub identity_of_command : DispatchCommand → ExecutionIdentity
identity_of_command c = record {
  airflow_dag_id = c.airflow_dag_id;
  airflow_dag_run_id = c.airflow_dag_run_id;
}

unfoldable pub new_fake_executor : Option Behavior → List Behavior → FakeExecutor
new_fake_executor default scripted = record {
  external_executions = [];
  rejected_identities = [];
  simulation_decisions = [];
  pending_unbound = [];
  open_tickets = [];
  next_ticket = 0;
  dispatch_history = [];
  status_lookup_history = [];
  scripted_behaviors = scripted;
  default_behavior = elim default [ none ↦ accept_run | some b ↦ b ];
  unavailable_message = none;
}

unfoldable pub set_default_behavior : Behavior → FakeExecutor → FakeExecutor
set_default_behavior b f = record f { default_behavior = b }

unfoldable pub enqueue_behaviors : List Behavior → FakeExecutor → FakeExecutor
enqueue_behaviors bs f = record f { scripted_behaviors = f.scripted_behaviors ++ bs }

unfoldable pub set_status_lookup_unavailable : String → FakeExecutor → FakeExecutor
set_status_lookup_unavailable message f = record f { unavailable_message = some message }

unfoldable pub clear_status_lookup_unavailable : FakeExecutor → FakeExecutor
clear_status_lookup_unavailable f = record f { unavailable_message = none }

abbrev pub set_state_of : String → ExecutionState → ExternalExecution → FakeExecutor → FakeExecutor
set_state_of key state e f = record f {
  external_executions = map_set key (record e { state = state }) f.external_executions;
}

abbrev pub set_found_state :
    String → ExecutionState → Option ExternalExecution → FakeExecutor → Bool × FakeExecutor
set_found_state key state none f = (false, f)
set_found_state key state (some e) f = (true, set_state_of key state e f)

unfoldable pub set_execution_state :
    ExecutionIdentity → ExecutionState → FakeExecutor → Bool × FakeExecutor
set_execution_state identity state f =
    let key = execution_key identity in
    set_found_state key state (map_get key f.external_executions) f

-- exactly one execution has the run id
abbrev pub only_entry : List (String × ExternalExecution) → Option (String × ExternalExecution)
only_entry (e ∷ []) = some e
only_entry _ = none

abbrev pub set_only_state :
    ExecutionState
    → Option (String × ExternalExecution)
    → FakeExecutor
    → Option ExternalExecution × FakeExecutor
set_only_state state none f = (none, f)
set_only_state state (some (key, e)) f =
    (some (record e { state = state }), set_state_of key state e f)

unfoldable pub set_execution_state_by_dag_run_id :
    String → ExecutionState → FakeExecutor → Option ExternalExecution × FakeExecutor
set_execution_state_by_dag_run_id run_id state f =
    set_only_state state
      (only_entry (select (λ e. e.1.command.airflow_dag_run_id == run_id) f.external_executions)) f

-- FakeSimulationInfo: none is UNBOUND
unfoldable pub simulation_info : ExecutionIdentity → FakeExecutor → Option (Option Simulation)
simulation_info identity f =
    let key = execution_key identity in
    if has_key (map_get key f.external_executions) || has_member key f.rejected_identities
    then some (map_get key f.simulation_decisions)
    else none
