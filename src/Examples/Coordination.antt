-- ===== src/Examples/Coordination.antt =====
-- A coordinator with two parallel operations of one session, of which the second has started.
use cost_engine_orchestratio.Base.{
  ℕ, ◌+◌, ◌≤◌, String, true, false, ◌&&◌, ◌≡◌, ◌↔◌, refl, [], ◌∷◌, Memᴰ, ◌==◌, string_eq, nat_eq,
  none, some, count_rows, length, arith,
}
use cost_engine_orchestratio.DemoSession.Errors.{Outcome, returned, thrown}
use cost_engine_orchestratio.DemoSession.Maps.{get_key}
use cost_engine_orchestratio.DemoSession.Context.{Session}
use cost_engine_orchestratio.DemoSession.Coordinator.{
  Coordinator, Operation, waiting, revalidating, initial, new_coordinator, run_parallel, can_start,
  set_phase, reserve_cleanup,
}
use cost_engine_orchestratio.DemoSession.Queues.Steps.{
  Scheduled, built, turn, runs_parallel, moves, begin, reserves,
}
use cost_engine_orchestratio.DemoSession.Queues.Safety.{
  started_order, Scheduled-bounds, reserved_idle, queue_live,
}
use cost_engine_orchestratio.DemoSession.Queues.Progress.{Moves, Scheduled-drains}

abbrev outcome_or {ℓ} : {A : Type ℓ} → A → Outcome A → A
outcome_or a (returned b) = b
outcome_or a (thrown e) = a

abbrev pub session_1 : Session
session_1 = record { object = 7; session_id = "s-1"; company_code = "DEMO_1"; expires_at = 100 }

abbrev session_2 : Session
session_2 = record { object = 8; session_id = "s-2"; company_code = "DEMO_2"; expires_at = 100 }

abbrev pub idle_coordinator : Coordinator
idle_coordinator = initial (7 ∷ 8 ∷ []) 32 1024

abbrev batch_1 : Coordinator
batch_1 = outcome_or idle_coordinator (run_parallel idle_coordinator session_1)

abbrev batch_2 : Coordinator
batch_2 = outcome_or batch_1 (run_parallel batch_1 session_1)

abbrev operation_1 : Operation
operation_1 = record {
  ticket = 0;
  session_id = "s-1";
  queue = 0;
  is_parallel = true;
  awaits = [];
  phase = waiting;
}

abbrev operation_2 : Operation
operation_2 = record operation_1 { ticket = 1 }

abbrev started_batch : Coordinator
started_batch = set_phase batch_2 1 revalidating

abbrev with_reset : Coordinator
with_reset = (outcome_or (0, batch_2) (reserve_cleanup batch_2 "s-2")).1

idle-Scheduled : Scheduled idle_coordinator
unfolding new_coordinator
idle-Scheduled = built (7 ∷ 8 ∷ []) 32 1024 refl

batch-Scheduled : Scheduled batch_2
unfolding run_parallel
batch-Scheduled =
    turn (turn idle-Scheduled (runs_parallel idle_coordinator session_1 refl))
      (runs_parallel batch_1 session_1 refl)

started-Scheduled : Scheduled started_batch
unfolding run_parallel can_start set_phase
started-Scheduled =
    turn batch-Scheduled (moves (begin batch_2 operation_2 (Memᴰ.tail (Memᴰ.head refl)) refl refl))

reserved-Scheduled : Scheduled with_reset
unfolding run_parallel reserve_cleanup
reserved-Scheduled = turn batch-Scheduled (reserves batch_2 "s-2" 0 refl)

started_order_example : (operation_1.is_parallel ≡ true) × (operation_2.is_parallel ≡ true)
unfolding run_parallel set_phase
started_order_example =
    started_order started-Scheduled operation_1 (record operation_2 { phase = revalidating })
      (Memᴰ.head refl) (Memᴰ.tail (Memᴰ.head refl)) refl (omega arith) (λ e. cc)

Scheduled-bounds_example :
    (count_rows (λ o. o.session_id == "s-1") started_batch.operations
      ≤ started_batch.max_operations)
    × (count_rows (λ o. o.is_parallel && (o.session_id == "s-1")) started_batch.operations ≤ 4)
    × (length started_batch.queues + length started_batch.resets ≤ started_batch.max_sessions)
Scheduled-bounds_example = Scheduled-bounds started-Scheduled "s-1"

reserved_idle_example : ¬ Memᴰ (record operation_1 { session_id = "s-2" }) with_reset.operations
unfolding run_parallel reserve_cleanup get_key
reserved_idle_example =
    reserved_idle reserved-Scheduled (record { object = 0; unknown = false })
      (record operation_1 { session_id = "s-2" }) refl

queue_live_example :
    ((q : ℕ) × (get_key "s-1" started_batch.queues ≡ some q))
    ↔ ((o : Operation) × Memᴰ o started_batch.operations × (o.session_id ≡ "s-1"))
queue_live_example = queue_live started-Scheduled "s-1"

Scheduled-drains_example :
    (n : ℕ) × (d : Coordinator) × Moves n started_batch d
    × (d.operations ≡ [])
    × ((s : String) → get_key s d.queues ≡ none)
Scheduled-drains_example = Scheduled-drains started-Scheduled
