-- ===== src/DemoSession/Queues/Steps.antt =====
-- demo-session.coordinator.ts: what can happen to a coordinator between two turns of the event loop.
use cost_engine_orchestratio.Base.{
  ℕ, String, true, ◌≡◌, ◌≢◌, refl, sym, ◌∙◌, List, ◌∷◌, Memᴰ, ◌≤◌, subst, select, count_rows, arith,
}
use cost_engine_orchestratio.DemoSession.Errors.{returned}
use cost_engine_orchestratio.DemoSession.Maps.{get_key}
use cost_engine_orchestratio.DemoSession.Context.{Session}
use cost_engine_orchestratio.DemoSession.Coordinator.{
  Coordinator, Operation, Phase, waiting, revalidating, running, initial, new_coordinator, run,
  run_parallel, can_start, set_phase, finish, reserve_cleanup, finish_reset, mark_unknown,
}
use cost_engine_orchestratio.DemoSession.Queues.Operations.{ticket_unique}
use cost_engine_orchestratio.DemoSession.Queues.Invariant.{IsCoordinated}
use cost_engine_orchestratio.DemoSession.Queues.Phases.{
  IsFree, can_start-IsFree, started-IsFree, set_phase-IsSerial, set_phase-IsAccounted,
}
use cost_engine_orchestratio.DemoSession.Queues.Settle.{finish-IsSerial, finish-IsAccounted}
use cost_engine_orchestratio.DemoSession.Queues.Accounts.{
  run-IsCoordinated, run_parallel-IsCoordinated,
}
use cost_engine_orchestratio.DemoSession.Queues.Resets.{
  reserve_cleanup-IsCoordinated, finish_reset-IsCoordinated, mark_unknown-IsCoordinated,
}

-- A live operation moves: what it awaits is settled, its session is confirmed, or it settles, be it
-- that its revalidation fails or that its body returns or throws.
pub data Move : Coordinator → Coordinator → Type 0 where
  begin :
      (c : Coordinator) (o : Operation)
      → Memᴰ o c.operations
      → o.phase ≡ waiting
      → can_start c o ≡ true
      → Move c (set_phase c o.ticket revalidating)
  confirm :
      (c : Coordinator) (o : Operation)
      → Memᴰ o c.operations
      → o.phase ≡ revalidating
      → Move c (set_phase c o.ticket running)
  settle :
      (c : Coordinator) (o : Operation)
      → Memᴰ o c.operations
      → o.phase ≢ waiting
      → Move c (finish c o)

pub data Turn : Coordinator → Coordinator → Type 0 where
  moves : {c d : Coordinator} → Move c d → Turn c d
  runs : (c : Coordinator) (s : Session) {d : Coordinator} → run c s ≡ returned d → Turn c d
  runs_parallel :
      (c : Coordinator) (s : Session) {d : Coordinator} → run_parallel c s ≡ returned d → Turn c d
  reserves :
      (c : Coordinator) (id : String) (object : ℕ) {d : Coordinator}
      → reserve_cleanup c id ≡ returned (object, d)
      → Turn c d
  finishes_reset :
      (c : Coordinator) (id : String) (object : ℕ) {d : Coordinator}
      → finish_reset c id object ≡ returned d
      → Turn c d
  loses_outcome : (c : Coordinator) (id : String) (object : ℕ) → Turn c (mark_unknown c id object)
  -- the session service makes a context
  authenticates :
      (c : Coordinator) (object : ℕ) → Turn c (record c { contexts = object ∷ c.contexts })

-- The coordinators that come about from a new one.
pub data Scheduled : Coordinator → Type 0 where
  built :
      (contexts : List ℕ) (max_operations max_sessions : ℕ) {c : Coordinator}
      → new_coordinator contexts max_operations max_sessions ≡ returned c
      → Scheduled c
  turn : {c d : Coordinator} → Scheduled c → Turn c d → Scheduled d

set_phase-IsCoordinated :
    (c : Coordinator) (o : Operation) (p : Phase)
    → IsCoordinated c
    → Memᴰ o c.operations
    → IsFree c o
    → IsCoordinated (set_phase c o.ticket p)
set_phase-IsCoordinated c o p inv m free = record {
  serial = set_phase-IsSerial o.ticket p c inv.serial (λ x n e.
      subst (IsFree c) (sym (ticket_unique c.operations inv.serial.ascending n m e)) free);
  accounted = set_phase-IsAccounted o.ticket p c inv.accounted;
}

pub Move-IsCoordinated : {c d : Coordinator} → IsCoordinated c → Move c d → IsCoordinated d
Move-IsCoordinated inv (begin c o m w h) =
    set_phase-IsCoordinated c o revalidating inv m (can_start-IsFree inv.serial m h)
Move-IsCoordinated inv (confirm c o m e) =
    set_phase-IsCoordinated c o running inv m
      (started-IsFree inv.serial m (λ w. revalidating-waits (sym e ∙ w)))
  where
    revalidating-waits : revalidating ≢ waiting
    revalidating-waits h = cc
Move-IsCoordinated inv (settle c o m h) = record {
  serial = finish-IsSerial c o inv.serial m h;
  accounted = finish-IsAccounted c o inv.serial m h inv.accounted;
}

Turn-IsCoordinated : {c d : Coordinator} → IsCoordinated c → Turn c d → IsCoordinated d
Turn-IsCoordinated inv (moves m) = Move-IsCoordinated inv m
Turn-IsCoordinated inv (runs c s h) = run-IsCoordinated c s inv h
Turn-IsCoordinated inv (runs_parallel c s h) = run_parallel-IsCoordinated c s inv h
Turn-IsCoordinated inv (reserves c id object h) = reserve_cleanup-IsCoordinated c id inv h
Turn-IsCoordinated inv (finishes_reset c id object h) = finish_reset-IsCoordinated c id inv object h
Turn-IsCoordinated inv (loses_outcome c id object) = mark_unknown-IsCoordinated c id inv object
Turn-IsCoordinated inv (authenticates c object) = record {
  serial = record {
    ascending = inv.serial.ascending;
    below = inv.serial.below;
    backward = inv.serial.backward;
    sized = inv.serial.sized;
    tracked = inv.serial.tracked;
    tail_below = inv.serial.tail_below;
    tailed = inv.serial.tailed;
    guarded = inv.serial.guarded;
  };
  accounted = record {
    located = inv.accounted.located;
    known = inv.accounted.known;
    owned = inv.accounted.owned;
    busy = inv.accounted.busy;
    disjoint = inv.accounted.disjoint;
    bounded = inv.accounted.bounded;
    roomy = inv.accounted.roomy;
    positive = inv.accounted.positive;
  };
}

initial-IsCoordinated :
    (contexts : List ℕ) (max_operations max_sessions : ℕ)
    → 1 ≤ max_operations
    → IsCoordinated (initial contexts max_operations max_sessions)
unfolding get_key count_rows select
initial-IsCoordinated contexts max_operations max_sessions h = record {
  serial = record {
    ascending = tt;
    below = λ o m. elim m [ ];
    backward = λ o t m. elim m [ ];
    sized = λ q. refl;
    tracked = λ q. refl;
    tail_below = λ q t e. cc;
    tailed = λ a m. elim m [ ];
    guarded = λ a b m. elim m [ ];
  };
  accounted = record {
    located = λ o m. elim m [ ];
    known = λ s q e. cc;
    owned = λ s s' q e. cc;
    busy = λ s q e. cc;
    disjoint = λ s r e. cc;
    bounded = λ q. (omega arith, omega arith);
    roomy = omega arith;
    positive = h;
  };
}

new_coordinator-IsCoordinated :
    (contexts : List ℕ) (max_operations max_sessions : ℕ) {c : Coordinator}
    → new_coordinator contexts max_operations max_sessions ≡ returned c
    → IsCoordinated c
unfolding new_coordinator
new_coordinator-IsCoordinated contexts max_operations max_sessions {c} h =
    subst IsCoordinated accepted
      (initial-IsCoordinated contexts max_operations max_sessions (ground arith))
  where
    accepted : initial contexts max_operations max_sessions ≡ c
    accepted = ground arith

-- Every coordinator that comes about is in order.
pub Scheduled-IsCoordinated : {c : Coordinator} → Scheduled c → IsCoordinated c
Scheduled-IsCoordinated (built contexts max_operations max_sessions h) =
    new_coordinator-IsCoordinated contexts max_operations max_sessions h
Scheduled-IsCoordinated (turn s t) = Turn-IsCoordinated (Scheduled-IsCoordinated s) t
