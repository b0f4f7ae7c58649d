-- ===== src/DemoSession/Queues/Invariant.antt =====
-- What holds between two steps of the coordinator: `IsSerial` of the operations and the promises that
-- they await, `IsAccounted` of the queues, the reservations and their numbers.
use cost_engine_orchestratio.Base.{
  ℕ, ◌+◌, ◌≤◌, ◌<◌, String, Bool, false, ◌&&◌, ◌≡◌, ◌⊎◌, Option, none, some, List, Memᴰ, ◌==◌,
  nat_eq, length, count_rows,
}
use cost_engine_orchestratio.DemoSession.Maps.{get_key}
use cost_engine_orchestratio.DemoSession.Coordinator.{
  Coordinator, Operation, waiting, ResetReservation,
}
use cost_engine_orchestratio.DemoSession.Queues.Operations.{IsAscending, tickets_of}

abbrev pub in_queue : ℕ → Operation → Bool
in_queue q o = o.queue == q

abbrev pub parallel_in : ℕ → Operation → Bool
parallel_in q o = o.is_parallel && (o.queue == q)

-- Two operations of one queue may not overlap when one of them is exclusive.
abbrev pub Conflicts : Operation → Operation → Type 0
Conflicts a b = (a.queue ≡ b.queue) × ((a.is_parallel && b.is_parallel) ≡ false)

-- A later operation awaits an earlier one, or an exclusive one between them.
abbrev pub Awaits : List Operation → Operation → Operation → Type 0
Awaits os b a =
    Memᴰ a.ticket b.awaits
    ⊎ ((c : Operation) × Memᴰ c os
        × (c.is_parallel ≡ false)
        × (c.queue ≡ a.queue)
        × (a.ticket < c.ticket)
        × (c.ticket < b.ticket)
        × Memᴰ c.ticket b.awaits)

-- The tail of a queue is the last exclusive operation that is live.
abbrev pub IsBehindTail : List Operation → Option ℕ → Operation → Type 0
IsBehindTail os tail a =
    (tail ≡ some a.ticket)
    ⊎ ((c : Operation) × Memᴰ c os
        × (c.is_parallel ≡ false)
        × (c.queue ≡ a.queue)
        × (tail ≡ some c.ticket)
        × (a.ticket < c.ticket))

pub record IsSerial (c : Coordinator) : Type 0 where
  pub ascending : IsAscending c.operations
  pub below : (o : Operation) → Memᴰ o c.operations → o.ticket < c.next_ticket
  pub backward : (o : Operation) (t : ℕ) → Memᴰ o c.operations → Memᴰ t o.awaits → t < o.ticket
  pub sized : (q : ℕ) → (c.objects q).size ≡ count_rows (in_queue q) c.operations
  pub tracked : (q : ℕ) → (c.objects q).parallel ≡ tickets_of (parallel_in q) c.operations
  pub tail_below : (q t : ℕ) → (c.objects q).tail ≡ some t → t < c.next_ticket
  pub tailed :
      (a : Operation)
      → Memᴰ a c.operations
      → a.is_parallel ≡ false
      → IsBehindTail c.operations (c.objects a.queue).tail a
  pub guarded :
      (a b : Operation)
      → Memᴰ a c.operations
      → Memᴰ b c.operations
      → a.ticket < b.ticket
      → Conflicts a b
      → (b.phase ≡ waiting) × Awaits c.operations b a

pub record IsAccounted (c : Coordinator) : Type 0 where
  pub located : (o : Operation) → Memᴰ o c.operations → get_key o.session_id c.queues ≡ some o.queue
  pub known : (s : String) (q : ℕ) → get_key s c.queues ≡ some q → q < c.next_queue
  pub owned :
      (s s' : String) (q : ℕ) → get_key s c.queues ≡ some q → get_key s' c.queues ≡ some q → s ≡ s'
  pub busy : (s : String) (q : ℕ) → get_key s c.queues ≡ some q → 0 < (c.objects q).size
  pub disjoint :
      (s : String) (r : ResetReservation) → get_key s c.resets ≡ some r → get_key s c.queues ≡ none
  pub bounded :
      (q : ℕ) → ((c.objects q).size ≤ c.max_operations) × (length (c.objects q).parallel ≤ 4)
  pub roomy : length c.queues + length c.resets ≤ c.max_sessions
  pub positive : 1 ≤ c.max_operations

pub record IsCoordinated (c : Coordinator) : Type 0 where
  pub serial : IsSerial c
  pub accounted : IsAccounted c
