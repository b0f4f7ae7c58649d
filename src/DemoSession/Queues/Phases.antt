-- ===== src/DemoSession/Queues/Phases.antt =====
-- demo-session.coordinator.ts: an operation that starts, and one whose session is revalidated, keep the
-- queues in order.
use cost_engine_orchestratio.Base.{
  ℕ, ◌<◌, Bool, true, ◌≡◌, ◌≢◌, ◌⊎◌, inl, inr, refl, sym, subst, ◌∙◌, Memᴰ, if◌then◌else◌, ◌==◌,
  nat_eq, ==-refl, eq_of_==, not-true, Bool-cases, Option, arith,
}
use cost_engine_orchestratio.Base.Rows.{
  mem-update_rows, update_rows-mem, all_rows-mem, any_row-none,
}
use cost_engine_orchestratio.DemoSession.Coordinator.{
  Coordinator, Operation, Phase, waiting, set_phase, can_start,
}
use cost_engine_orchestratio.DemoSession.Queues.Operations.{
  update_rows-IsAscending, count_rows-update_rows, tickets_of-update_rows,
}
use cost_engine_orchestratio.DemoSession.Queues.Invariant.{
  IsSerial, IsAccounted, Conflicts, Awaits, IsBehindTail, in_queue, parallel_in,
}

-- No live operation that came before stands in the way of this one.
abbrev pub IsFree : Coordinator → Operation → Type 0
IsFree c o = (a : Operation) → Memᴰ a c.operations → a.ticket < o.ticket → Conflicts a o → ⊥

-- What the operation awaits is settled, so that nothing stands in its way.
pub can_start-IsFree :
    {c : Coordinator} {o : Operation}
    → IsSerial c
    → Memᴰ o c.operations
    → can_start c o ≡ true
    → IsFree c o
unfolding can_start
can_start-IsFree {c} {o} inv m h a n lt conflict = elim (inv.guarded a o n m lt conflict).1 [
  | inl w ↦ settled n w
  | inr (x, mx, par, same, lo, hi, w) ↦ settled mx w
]
  where
    settled : {x : Operation} → Memᴰ x c.operations → Memᴰ x.ticket o.awaits → ⊥
    settled {x} mx w =
        let dead = all_rows-mem _ o.awaits h w in
        let no =
          any_row-none (λ (y : Operation). y.ticket == x.ticket) c.operations (not-true dead) mx in
        ground (arith, ==-refl x.ticket)

-- Nothing stands in the way of an operation that has started.
pub started-IsFree :
    {c : Coordinator} {o : Operation}
    → IsSerial c
    → Memᴰ o c.operations
    → o.phase ≢ waiting
    → IsFree c o
started-IsFree inv m h a n lt conflict = h (inv.guarded a _ n m lt conflict).0

-- Two records of one operation, at two moments.
record SameOperation (t : ℕ) (x y : Operation) : Type 0 where
  ticket : y.ticket ≡ x.ticket
  session_id : y.session_id ≡ x.session_id
  queue : y.queue ≡ x.queue
  is_parallel : y.is_parallel ≡ x.is_parallel
  awaits : y.awaits ≡ x.awaits
  phase : (y.phase ≡ x.phase) ⊎ (x.ticket ≡ t)

module _ (t : ℕ) (p : Phase) where
  has_ticket : Operation → Bool
  has_ticket o = o.ticket == t

  set : Operation → Operation
  set o = record o { phase = p }

  move : Operation → Operation
  move o = if o.ticket == t then record o { phase = p } else o

  move-SameOperation : (x : Operation) → SameOperation t x (move x)
  unfolding move
  move-SameOperation x = elim (Bool-cases (x.ticket == t)) [
    | inl e ↦ rw e record {
      ticket = refl;
      session_id = refl;
      queue = refl;
      is_parallel = refl;
      awaits = refl;
      phase = inr (eq_of_== e);
    }
    | inr e ↦ rw e record {
      ticket = refl;
      session_id = refl;
      queue = refl;
      is_parallel = refl;
      awaits = refl;
      phase = inl refl;
    }
  ]

  module _ (c : Coordinator) where
    before :
        {y : Operation}
        → Memᴰ y (set_phase c t p).operations
        → (x : Operation) × Memᴰ x c.operations × SameOperation t x y
    unfolding set_phase move has_ticket set
    before m =
        let (x, n, e) = mem-update_rows has_ticket set c.operations m in
        (x, n, subst (SameOperation t x) (sym e) (move-SameOperation x))

    after :
        {x : Operation}
        → Memᴰ x c.operations
        → (y : Operation) × Memᴰ y (set_phase c t p).operations × SameOperation t x y
    unfolding set_phase move has_ticket set
    after {x} m = (move x, update_rows-mem has_ticket set c.operations m, move-SameOperation x)

    Awaits-phase :
        {a b a' b' : Operation}
        → SameOperation t a a'
        → SameOperation t b b'
        → Awaits c.operations b a
        → Awaits (set_phase c t p).operations b' a'
    Awaits-phase sa sb (inl m) = inl (rw (sa.ticket, sb.awaits) m)
    Awaits-phase sa sb (inr (x, m, par, same, lo, hi, w)) =
        let (y, n, s) = after m in
        inr (
          y,
          n,
          s.is_parallel ∙ par,
          s.queue ∙ same ∙ sym sa.queue,
          omega (arith, s.ticket, sa.ticket, lo),
          omega (arith, s.ticket, sb.ticket, hi),
          rw (s.ticket, sb.awaits) w,
        )

    IsBehindTail-phase :
        (tail : Option ℕ) {a a' : Operation}
        → SameOperation t a a'
        → IsBehindTail c.operations tail a
        → IsBehindTail (set_phase c t p).operations tail a'
    IsBehindTail-phase tail sa (inl e) = inl (rw sa.ticket e)
    IsBehindTail-phase tail sa (inr (x, m, par, same, e, lo)) =
        let (y, n, s) = after m in
        inr (
          y,
          n,
          s.is_parallel ∙ par,
          s.queue ∙ same ∙ sym sa.queue,
          rw s.ticket e,
          omega (arith, s.ticket, sa.ticket, lo),
        )

    guarded-phase :
        IsSerial c
        → ((o : Operation) → Memᴰ o c.operations → o.ticket ≡ t → IsFree c o)
        → (a b : Operation) → Memᴰ a (set_phase c t p).operations
        → Memᴰ b (set_phase c t p).operations
        → a.ticket < b.ticket
        → Conflicts a b
        → (b.phase ≡ waiting) × Awaits (set_phase c t p).operations b a
    guarded-phase inv free a b ma mb lt conflict =
        let (a0, na, sa) = before ma in
        let (b0, nb, sb) = before mb in
        let lt' : a0.ticket < b0.ticket = omega (arith, sa.ticket, sb.ticket, lt) in
        let conflict' : Conflicts a0 b0 = (
          sym sa.queue ∙ conflict.0 ∙ sb.queue,
          rw (← sa.is_parallel, ← sb.is_parallel) conflict.1,
        ) in
        let (w, aw) = inv.guarded a0 b0 na nb lt' conflict' in
        elim sb.phase [
          | inl e ↦ (e ∙ w, Awaits-phase sa sb aw)
          | inr e ↦ absurd (free b0 nb e a0 na lt' conflict')
        ]

    pub set_phase-IsSerial :
        IsSerial c
        → ((o : Operation) → Memᴰ o c.operations → o.ticket ≡ t → IsFree c o)
        → IsSerial (set_phase c t p)
    unfolding set_phase has_ticket set
    set_phase-IsSerial inv free = record {
      ascending = update_rows-IsAscending has_ticket set (λ x. refl) c.operations inv.ascending;
      below = λ o m. let (x, n, s) = before m in omega (arith, s.ticket, inv.below x n);
      backward = λ o k m w.
          let (x, n, s) = before m in
          omega (arith, s.ticket, inv.backward x k n (subst (Memᴰ k) s.awaits w));
      sized = λ q.
          inv.sized q
          ∙ sym (
              count_rows-update_rows has_ticket set (λ x. refl) (in_queue q) (λ x. refl)
                c.operations);
      tracked = λ q.
          inv.tracked q
          ∙ sym (
              tickets_of-update_rows has_ticket set (λ x. refl) (parallel_in q) (λ x. refl)
                c.operations);
      tail_below = inv.tail_below;
      tailed = λ a m e.
          let (x, n, s) = before m in
          subst (λ (q : ℕ). IsBehindTail (set_phase c t p).operations (c.objects q).tail a)
            (sym s.queue) (IsBehindTail-phase _ s (inv.tailed x n (sym s.is_parallel ∙ e)));
      guarded = guarded-phase inv free;
    }

    pub set_phase-IsAccounted : IsAccounted c → IsAccounted (set_phase c t p)
    unfolding set_phase has_ticket set
    set_phase-IsAccounted inv = record {
      located = λ o m. let (x, n, s) = before m in rw (s.session_id, s.queue) (inv.located x n);
      known = inv.known;
      owned = inv.owned;
      busy = inv.busy;
      disjoint = inv.disjoint;
      bounded = inv.bounded;
      roomy = inv.roomy;
      positive = inv.positive;
    }
