-- ===== src/Examples/Executors.antt =====
-- The theorems of FakeExecutor/Irrevocable.antt, applied to executors that have served some calls.
use cost_engine_orchestratio.Base.{
  ◌≡◌, refl, false, none, some, [], nat_eq, string_eq, option_eq, any_row,
}
use cost_engine_orchestratio.Store.Status.{
  dataset_status_eq, job_status_eq, attempt_status_eq, definition_status_eq,
}
use cost_engine_orchestratio.Dispatch.Types.{already_exists, dispatch_rejected}
use cost_engine_orchestratio.FakeExecutor.Maps.{map_get, map_set, map_delete, has_key}
use cost_engine_orchestratio.FakeExecutor.State.{
  reject_run, FakeExecutor, execution_key, new_fake_executor, set_default_behavior,
  enqueue_behaviors, set_status_lookup_unavailable, clear_status_lookup_unavailable,
  set_execution_state, set_execution_state_by_dag_run_id,
}
use cost_engine_orchestratio.FakeExecutor.Dispatch.{
  unbound, next_behavior, rejection_message, create_run, by_behavior, decide_unseen,
  decide_dispatch, finish_ticket, release_key, get_execution_status, ticket_key,
}
use cost_engine_orchestratio.FakeExecutor.State.{simulation_info}
use cost_engine_orchestratio.FakeExecutor.Dispatch.{
  dispatch_run, dispatch_with_simulation, close_ticket,
}
use cost_engine_orchestratio.Examples.Data.{command_1}
use cost_engine_orchestratio.FakeExecutor.State.{simulate_accept, simulate_reject, state_succeeded}
use cost_engine_orchestratio.FakeExecutor.Irrevocable.{
  dispatched, none_yet, and_then, Calls-Exclusive, rejection_irrevocable, Created-irrevocable,
}
use cost_engine_orchestratio.FakeExecutor.Growth.{Created, Rejected}
use cost_engine_orchestratio.FakeExecutor.Operations.{key_of}

abbrev rejecting : FakeExecutor
rejecting = new_fake_executor (some reject_run) []

abbrev rejected_once : FakeExecutor
rejected_once = (decide_dispatch command_1 none rejecting).1

abbrev accepted_once : FakeExecutor
accepted_once = (decide_dispatch command_1 none (new_fake_executor none [])).1

Rejected-in : Rejected (key_of command_1) rejected_once
unfolding unbound next_behavior create_run by_behavior decide_unseen decide_dispatch dispatch_run
    dispatch_with_simulation ticket_key close_ticket release_key finish_ticket get_execution_status
    map_get map_set map_delete execution_key new_fake_executor set_default_behavior
    enqueue_behaviors set_status_lookup_unavailable clear_status_lookup_unavailable
    set_execution_state set_execution_state_by_dag_run_id simulation_info any_row
Rejected-in = refl

Created-in : Created (key_of command_1) accepted_once
unfolding unbound next_behavior create_run by_behavior decide_unseen decide_dispatch dispatch_run
    dispatch_with_simulation ticket_key close_ticket release_key finish_ticket get_execution_status
    map_get map_set map_delete execution_key new_fake_executor set_default_behavior
    enqueue_behaviors set_status_lookup_unavailable clear_status_lookup_unavailable
    set_execution_state set_execution_state_by_dag_run_id simulation_info any_row
Created-in = refl

Calls-Exclusive_example :
    has_key (map_get (key_of command_1) rejected_once.external_executions) ≡ false
Calls-Exclusive_example =
    Calls-Exclusive (some reject_run) [] (and_then none_yet (dispatched command_1 none))
      (key_of command_1) Rejected-in

rejection_irrevocable_example :
    (decide_dispatch command_1
      (some (simulate_accept state_succeeded))
      (decide_dispatch command_1 (some (simulate_accept state_succeeded)) rejected_once).1).0.result
    ≡ dispatch_rejected rejection_message
rejection_irrevocable_example =
    rejection_irrevocable
      (and_then none_yet (dispatched command_1 (some (simulate_accept state_succeeded))))
      (Calls-Exclusive (some reject_run) [] (and_then none_yet (dispatched command_1 none)))
      command_1 Rejected-in (some (simulate_accept state_succeeded))

Created-irrevocable_example :
    (decide_dispatch command_1
      (some simulate_reject)
      (decide_dispatch command_1 (some simulate_reject) accepted_once).1).0.result
    ≡ already_exists
Created-irrevocable_example =
    Created-irrevocable (and_then none_yet (dispatched command_1 (some simulate_reject))) command_1
      Created-in (some simulate_reject)
