-- ===== src/FakeExecutor/Irrevocable.antt =====
-- executors/fake-executor.ts: sequences of calls, and what an executor answers of an identity after
-- them.
use cost_engine_orchestratio.Base.{
  ℕ, String, ◌≡◌, refl, false, Option, List, nat_eq, string_eq, option_eq,
}
use cost_engine_orchestratio.Store.Status.{
  dataset_status_eq, job_status_eq, attempt_status_eq, definition_status_eq,
}
use cost_engine_orchestratio.Dispatch.Types.{
  DispatchCommand, already_exists, dispatch_rejected, ExecutionIdentity,
}
use cost_engine_orchestratio.FakeExecutor.Maps.{map_get, has_key}
use cost_engine_orchestratio.FakeExecutor.State.{
  Behavior, ExecutionState, Simulation, FakeExecutor, new_fake_executor, set_default_behavior,
  enqueue_behaviors, set_status_lookup_unavailable, clear_status_lookup_unavailable,
  set_execution_state, set_execution_state_by_dag_run_id,
}
use cost_engine_orchestratio.FakeExecutor.Dispatch.{
  rejection_message, decide_dispatch, finish_ticket, get_execution_status,
}
use cost_engine_orchestratio.FakeExecutor.Growth.{
  Created, Rejected, Exclusive, Grows, Grows-same, Grows-trans,
}
use cost_engine_orchestratio.FakeExecutor.Operations.{
  key_of, decide_dispatch-Grows, set_execution_state-Grows, set_execution_state_by_dag_run_id-Grows,
  finish_ticket-Grows, get_execution_status-Grows,
}

-- A dispatch of an identity that has a run answers that it exists.
decide-Created :
    (command : DispatchCommand) (simulation : Option Simulation) (f : FakeExecutor)
    → Created (key_of command) f
    → (decide_dispatch command simulation f).0.result ≡ already_exists
unfolding decide_dispatch
decide-Created command simulation f there = rw there refl

-- A dispatch of an identity that was rejected, and has no run, is rejected.
decide-Rejected :
    (command : DispatchCommand) (simulation : Option Simulation) (f : FakeExecutor)
    → has_key (map_get (key_of command) f.external_executions) ≡ false
    → Rejected (key_of command) f
    → (decide_dispatch command simulation f).0.result ≡ dispatch_rejected rejection_message
unfolding decide_dispatch
decide-Rejected command simulation f absent told = rw (absent, told) refl

-- One call of the executor.
pub data Call : FakeExecutor → FakeExecutor → Type 0 where
  dispatched :
      {f : FakeExecutor} (c : DispatchCommand) (simulation : Option Simulation)
      → Call f (decide_dispatch c simulation f).1
  state_set :
      {f : FakeExecutor} (i : ExecutionIdentity) (state : ExecutionState)
      → Call f (set_execution_state i state f).1
  state_set_by_run :
      {f : FakeExecutor} (run_id : String) (state : ExecutionState)
      → Call f (set_execution_state_by_dag_run_id run_id state f).1
  finished : {f : FakeExecutor} (t : ℕ) → Call f (finish_ticket t f)
  looked_up : {f : FakeExecutor} (i : ExecutionIdentity) → Call f (get_execution_status i f).1
  default_set : {f : FakeExecutor} (b : Behavior) → Call f (set_default_behavior b f)
  enqueued : {f : FakeExecutor} (bs : List Behavior) → Call f (enqueue_behaviors bs f)
  made_unavailable : {f : FakeExecutor} (m : String) → Call f (set_status_lookup_unavailable m f)
  made_available : {f : FakeExecutor} → Call f (clear_status_lookup_unavailable f)

pub data Calls : FakeExecutor → FakeExecutor → Type 0 where
  none_yet : {f : FakeExecutor} → Calls f f
  and_then : {f g h : FakeExecutor} → Calls f g → Call g h → Calls f h

Call-Grows : {f g : FakeExecutor} → Call f g → Grows f g
unfolding set_default_behavior enqueue_behaviors set_status_lookup_unavailable
    clear_status_lookup_unavailable
Call-Grows {f} (dispatched c simulation) = decide_dispatch-Grows c simulation f
Call-Grows {f} (state_set i state) = set_execution_state-Grows i state f
Call-Grows {f} (state_set_by_run run_id state) =
    set_execution_state_by_dag_run_id-Grows run_id state f
Call-Grows {f} (finished t) = finish_ticket-Grows t f
Call-Grows {f} (looked_up i) = get_execution_status-Grows i f
Call-Grows (default_set b) = Grows-same refl refl
Call-Grows (enqueued bs) = Grows-same refl refl
Call-Grows (made_unavailable m) = Grows-same refl refl
Call-Grows made_available = Grows-same refl refl

Calls-Grows : {f g : FakeExecutor} → Calls f g → Grows f g
Calls-Grows none_yet = Grows-same refl refl
Calls-Grows (and_then cs c) = Grows-trans (Calls-Grows cs) (Call-Grows c)

new_fake_executor-Exclusive :
    (default : Option Behavior) (scripted : List Behavior)
    → Exclusive (new_fake_executor default scripted)
unfolding new_fake_executor map_get
new_fake_executor-Exclusive default scripted key h = refl

-- Whatever calls a new executor has served, an identity that it rejected has no run.
pub Calls-Exclusive :
    (default : Option Behavior) (scripted : List Behavior) {g : FakeExecutor}
    → Calls (new_fake_executor default scripted) g
    → (key : String) → Rejected key g
    → has_key (map_get key g.external_executions) ≡ false
Calls-Exclusive default scripted cs =
    (Calls-Grows cs).exclusive (new_fake_executor-Exclusive default scripted)

-- Once an executor that has no rejected run rejects an identity, each dispatch of the identity is
-- rejected after any further calls, with any simulation.
pub rejection_irrevocable :
    {f g : FakeExecutor}
    → Calls f g
    → Exclusive f
    → (c : DispatchCommand) → Rejected (key_of c) f
    → (simulation : Option Simulation)
    → (decide_dispatch c simulation g).0.result ≡ dispatch_rejected rejection_message
rejection_irrevocable {g = g} cs x c told simulation =
    let gr = Calls-Grows cs in
    let told' = gr.rejected_stays (key_of c) told in
    decide-Rejected c simulation g (gr.exclusive x (key_of c) told') told'

-- Once a run exists for an identity, each dispatch of the identity answers that it exists, after any
-- further calls and with any simulation.
pub Created-irrevocable :
    {f g : FakeExecutor}
    → Calls f g
    → (c : DispatchCommand) → Created (key_of c) f
    → (simulation : Option Simulation) → (decide_dispatch c simulation g).0.result ≡ already_exists
Created-irrevocable {g = g} cs c there simulation =
    decide-Created c simulation g ((Calls-Grows cs).created_stays (key_of c) there)
