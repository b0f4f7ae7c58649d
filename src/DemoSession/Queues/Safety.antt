-- ===== src/DemoSession/Queues/Safety.antt =====
-- demo-session.coordinator.ts: exclusion, bounds, and the separation of resets from operations, in
-- every coordinator that comes about.
use cost_engine_orchestratio.Base.{
  ℕ, suc, ◌+◌, ◌≤◌, ◌<◌, String, Bool, true, false, ◌&&◌, ◌≡◌, ◌≢◌, ◌↔◌, and-true, inl, inr, refl,
  sym, ap, ◌∙◌, List, [], ◌∷◌, Memᴰ, Option, none, some, ◌==◌, nat_eq, string_eq, ==-refl, eq_of_==,
  Bool-cases, Option-cases, select, count_rows, length, arith,
}
use cost_engine_orchestratio.DemoSession.Maps.{get_key}
use cost_engine_orchestratio.DemoSession.Coordinator.{
  Coordinator, Operation, waiting, ResetReservation,
}
use cost_engine_orchestratio.DemoSession.Queues.Operations.{tickets_of, count_rows-absent}
use cost_engine_orchestratio.DemoSession.Queues.Invariant.{IsCoordinated, in_queue, parallel_in}
use cost_engine_orchestratio.DemoSession.Queues.Steps.{Scheduled, Scheduled-IsCoordinated}

pub some_injective : {a b : ℕ} → ◌≡◌ {A = Option ℕ} (some a) (some b) → a ≡ b
some_injective h = cc

-- The operations of one session are in one queue.
pub same_queue :
    {c : Coordinator}
    → IsCoordinated c
    → (a b : Operation) → Memᴰ a c.operations
    → Memᴰ b c.operations
    → a.session_id ≡ b.session_id
    → a.queue ≡ b.queue
same_queue {c} inv a b m n e = some_injective (
    sym (inv.accounted.located a m)
    ∙ ap (λ (s : String). get_key s c.queues) e
    ∙ inv.accounted.located b n)

-- When an operation has started, each live operation of its session that was admitted before it is
-- parallel, and it is parallel itself: exclusive operations run alone, and in the order of admission.
pub started_order :
    {c : Coordinator}
    → Scheduled c
    → (a b : Operation) → Memᴰ a c.operations
    → Memᴰ b c.operations
    → a.session_id ≡ b.session_id
    → a.ticket < b.ticket
    → b.phase ≢ waiting
    → (a.is_parallel ≡ true) × (b.is_parallel ≡ true)
started_order s a b m n e lt started = elim (Bool-cases (a.is_parallel && b.is_parallel)) [
  | inl both ↦ ground arith
  | inr clash ↦
      let inv = Scheduled-IsCoordinated s in
      absurd (started (inv.serial.guarded a b m n lt (same_queue inv a b m n e, clash)).0)
]

count_rows_mono :
    (p r : Operation → Bool) (os : List Operation)
    → ((x : Operation) → Memᴰ x os → p x ≡ true → r x ≡ true)
    → count_rows p os ≤ count_rows r os
unfolding count_rows
count_rows_mono p r [] h = omega arith
count_rows_mono p r (o ∷ os) h =
    ground (arith, h o (Memᴰ.head refl), count_rows_mono p r os (λ x m. h x (Memᴰ.tail m)))

length-tickets_of :
    (p : Operation → Bool) (os : List Operation) → length (tickets_of p os) ≡ count_rows p os
unfolding count_rows select
length-tickets_of p [] = refl
length-tickets_of p (o ∷ os) = elim (Bool-cases (p o)) [
  | inl e ↦ rw e (ap suc (length-tickets_of p os))
  | inr e ↦ rw e (length-tickets_of p os)
]

pub count_rows-live :
    (p : Operation → Bool) (os : List Operation)
    → 0 < count_rows p os
    → (x : Operation) × Memᴰ x os × (p x ≡ true)
unfolding count_rows
count_rows-live p [] h = absurd (omega arith)
count_rows-live p (o ∷ os) h = elim (Bool-cases (p o)) [
  | inl e ↦ (o, Memᴰ.head refl, e)
  | inr e ↦ let (x, m, f) = count_rows-live p os (ground arith) in (x, Memᴰ.tail m, f)
]

-- The live operations of a session are those of its queue; without a queue it has none.
session_count :
    {c : Coordinator}
    → IsCoordinated c
    → (s : String)
    → (count_rows (λ o. o.session_id == s) c.operations ≤ c.max_operations)
      × (count_rows (λ o. o.is_parallel && (o.session_id == s)) c.operations ≤ 4)
session_count {c} inv s = elim (Option-cases (get_key s c.queues)) [
  | inl e ↦ (
    rw (count_rows-absent (λ o. o.session_id == s) c.operations (λ x m. idle e x m)) (omega arith),
    rw
        (count_rows-absent (λ o. o.is_parallel && (o.session_id == s)) c.operations
          (λ x m. ground (arith, idle e x m)))
        (omega arith),
  )
  | inr (q, e) ↦ (
    omega (
      arith,
      count_rows_mono (λ o. o.session_id == s) (in_queue q) c.operations
          (λ x m h. queued q e x m h),
      inv.serial.sized q,
      inv.accounted.bounded q,
    ),
    omega (
      arith,
      count_rows_mono (λ o. o.is_parallel && (o.session_id == s)) (parallel_in q) c.operations
          (λ x m h.
            ground (
              arith,
              h,
              queued q e x m (and-true {a = x.is_parallel} {b = x.session_id == s} h).1,
            )),
      length-tickets_of (parallel_in q) c.operations,
      ap length (inv.serial.tracked q),
      inv.accounted.bounded q,
    ),
  )
]
  where
    idle :
        get_key s c.queues ≡ none
        → (x : Operation) → Memᴰ x c.operations
        → (x.session_id == s) ≡ false
    idle e x m = elim (Bool-cases (x.session_id == s)) [
      | inr f ↦ f
      | inl f ↦
          let same : x.session_id ≡ s = eq_of_== f in
          cc (sym (inv.accounted.located x m) ∙ ap (λ (k : String). get_key k c.queues) same ∙ e)
    ]

    queued :
        (q : ℕ)
        → get_key s c.queues ≡ some q
        → (x : Operation) → Memᴰ x c.operations
        → (x.session_id == s) ≡ true
        → (x.queue == q) ≡ true
    queued q e x m h =
        let same : x.session_id ≡ s = eq_of_== h in
        let there =
          sym (inv.accounted.located x m) ∙ ap (λ (k : String). get_key k c.queues) same ∙ e in
        rw (some_injective there) (==-refl q)

-- The limits hold: at most `maxOperations` live operations of a session, at most four of them
-- parallel, at most `maxSessions` sessions with a queue or a reservation.
pub Scheduled-bounds :
    {c : Coordinator}
    → Scheduled c
    → (s : String)
    → (count_rows (λ o. o.session_id == s) c.operations ≤ c.max_operations)
      × (count_rows (λ o. o.is_parallel && (o.session_id == s)) c.operations ≤ 4)
      × (length c.queues + length c.resets ≤ c.max_sessions)
Scheduled-bounds h s =
    let inv = Scheduled-IsCoordinated h in
    let n = session_count inv s in (n.0, n.1, inv.accounted.roomy)

-- While a session is reserved for a reset, it has no live operation.
pub reserved_idle :
    {c : Coordinator}
    → Scheduled c
    → (r : ResetReservation) (o : Operation) → get_key o.session_id c.resets ≡ some r
    → ¬ Memᴰ o c.operations
reserved_idle h r o e m =
    let inv = Scheduled-IsCoordinated h in
    cc (inv.accounted.disjoint o.session_id r e, inv.accounted.located o m)

-- A session has a queue in the map exactly as long as one of its operations is live.
pub queue_live :
    {c : Coordinator}
    → Scheduled c
    → (s : String)
    → ((q : ℕ) × (get_key s c.queues ≡ some q))
      ↔ ((o : Operation) × Memᴰ o c.operations × (o.session_id ≡ s))
queue_live {c} h s = (
  λ p.
      let busy = inv.accounted.busy s p.0 p.1 in
      let (o, m, e) =
        count_rows-live (in_queue p.0) c.operations (omega (arith, inv.serial.sized p.0)) in
      let same : o.queue ≡ p.0 = eq_of_== e in
      (o, m, inv.accounted.owned o.session_id s p.0 (inv.accounted.located o m ∙ ap some same) p.1),
  λ p. (
    p.0.queue,
    ap (λ (k : String). get_key k c.queues) (sym p.2) ∙ inv.accounted.located p.0 p.1,
  ),
)
  where
    inv : IsCoordinated c
    inv = Scheduled-IsCoordinated h
