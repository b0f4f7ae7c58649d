-- ===== src/DemoSession/Queues/Settle.antt =====
-- demo-session.coordinator.ts: an operation that settles, and its release, keep the queues in order.
use cost_engine_orchestratio.Base.{
  ℕ, ◌-◌, ◌<◌, ◌≤◌, String, Bool, true, false, ◌≡◌, ◌≢◌, inl, inr, sym, ap, subst, ◌∙◌, List, [],
  ◌∷◌, Memᴰ, and-true, Option, none, some, if◌then◌else◌, ◌==◌, nat_eq, string_eq, ==-refl,
  eq_of_==, ◌&&◌, Bool-cases, length, count_rows, arith,
}
use cost_engine_orchestratio.DemoSession.Maps.{
  get_key, delete_key, get_key-delete_key, length-delete_key,
}
use cost_engine_orchestratio.DemoSession.Coordinator.{
  Coordinator, Operation, waiting, finish, release, delete_member, remove_operation,
}
use cost_engine_orchestratio.DemoSession.Queues.Operations.{
  remove_operation-mem, mem-remove_operation, remove_operation-IsAscending,
  count_rows-remove_operation, tickets_of-remove_operation, tickets_of, ticket_unique,
  mem-count_rows,
}
use cost_engine_orchestratio.DemoSession.Queues.Invariant.{
  IsSerial, IsAccounted, Conflicts, Awaits, IsBehindTail, in_queue, parallel_in,
}

some_inj : {a b : ℕ} → ◌≡◌ {A = Option ℕ} (some a) (some b) → a ≡ b
some_inj h = cc

length-delete_member : (t : ℕ) (xs : List ℕ) → length (delete_member t xs) ≤ length xs
unfolding delete_member
length-delete_member t [] = omega arith
length-delete_member t (x ∷ xs) = ground (arith, length-delete_member t xs)

module _ (c : Coordinator) (o : Operation) where
  finish_tail : (q : ℕ) → ((finish c o).objects q).tail ≡ (c.objects q).tail
  unfolding finish release
  finish_tail q = ground arith

  finish_size :
      (q : ℕ)
      → ((finish c o).objects q).size
        ≡ (if o.queue == q then (c.objects q).size - 1 else (c.objects q).size)
  unfolding finish release
  finish_size q = ground arith

  finish_parallel :
      (q : ℕ)
      → ((finish c o).objects q).parallel ≡ (
          if o.is_parallel && (o.queue == q)
          then delete_member o.ticket (c.objects q).parallel
          else (c.objects q).parallel)
  unfolding finish release
  finish_parallel q = ground arith

  pub finish_operations : (finish c o).operations ≡ remove_operation o.ticket c.operations
  unfolding finish release
  finish_operations = ground arith

  finish_queues : (finish c o).queues ≡ (
      if ((finish c o).objects o.queue).size == 0
      then delete_key o.session_id c.queues
      else c.queues)
  unfolding finish release
  finish_queues = ground arith

  finish_rest :
      ((finish c o).next_ticket ≡ c.next_ticket)
      × ((finish c o).next_queue ≡ c.next_queue)
      × ((finish c o).resets ≡ c.resets)
      × ((finish c o).max_operations ≡ c.max_operations)
      × ((finish c o).max_sessions ≡ c.max_sessions)
  unfolding finish release
  finish_rest = ground arith

  module _ (inv : IsSerial c) (live : Memᴰ o c.operations) (started : o.phase ≢ waiting) where
    finish-mem : {x : Operation} → Memᴰ x (finish c o).operations → Memᴰ x c.operations
    finish-mem {x} m =
        remove_operation-mem o.ticket c.operations (subst (Memᴰ x) finish_operations m)

    mem-finish :
        {x : Operation} → Memᴰ x c.operations → x.ticket ≢ o.ticket → Memᴰ x (finish c o).operations
    mem-finish {x} m h =
        subst (Memᴰ x) (sym finish_operations) (mem-remove_operation o.ticket c.operations m h)

    -- An exclusive operation that an earlier live one precedes has not started.
    barrier_stays :
        (a x : Operation)
        → Memᴰ a c.operations
        → Memᴰ x c.operations
        → x.is_parallel ≡ false
        → x.queue ≡ a.queue
        → a.ticket < x.ticket
        → x.ticket ≢ o.ticket
    barrier_stays a x na nx par same lt e =
        let same_op = ticket_unique c.operations inv.ascending nx live e in
        let conflict : Conflicts a x = (sym same, ground (arith, par)) in
        started
          (ap (λ (y : Operation). y.phase) (sym same_op) ∙ (inv.guarded a x na nx lt conflict).0)

    tailed-finish :
        (a : Operation)
        → Memᴰ a (finish c o).operations
        → a.is_parallel ≡ false
        → IsBehindTail (finish c o).operations ((finish c o).objects a.queue).tail a
    tailed-finish a m e = elim (inv.tailed a (finish-mem m) e) [
      | inl t ↦ inl (finish_tail a.queue ∙ t)
      | inr (x, n, par, same, t, lt) ↦ inr (
        x,
        mem-finish n (barrier_stays a x (finish-mem m) n par same lt),
        par,
        same,
        finish_tail a.queue ∙ t,
        lt,
      )
    ]

    guarded-finish :
        (a b : Operation)
        → Memᴰ a (finish c o).operations
        → Memᴰ b (finish c o).operations
        → a.ticket < b.ticket
        → Conflicts a b
        → (b.phase ≡ waiting) × Awaits (finish c o).operations b a
    guarded-finish a b ma mb lt conflict =
        let (w, aw) = inv.guarded a b (finish-mem ma) (finish-mem mb) lt conflict in
        (
          w,
          elim aw [
            | inl t ↦ inl t
            | inr (x, n, par, same, lo, hi, k) ↦ inr (
              x,
              mem-finish n (barrier_stays a x (finish-mem ma) n par same lo),
              par,
              same,
              lo,
              hi,
              k,
            )
          ],
        )

    sized-finish :
        (q : ℕ) → ((finish c o).objects q).size ≡ count_rows (in_queue q) (finish c o).operations
    sized-finish q =
        rw (finish_operations, finish_size q)
          (ground (
            arith,
            inv.sized q,
            count_rows-remove_operation (in_queue q) c.operations inv.ascending live,
          ))

    tracked-finish :
        (q : ℕ)
        → ((finish c o).objects q).parallel ≡ tickets_of (parallel_in q) (finish c o).operations
    tracked-finish q =
        rw (finish_operations, finish_parallel q, inv.tracked q)
          (sym (tickets_of-remove_operation (parallel_in q) c.operations inv.ascending live))

    pub finish-IsSerial : IsSerial (finish c o)
    finish-IsSerial = record {
      ascending =
          rw finish_operations (remove_operation-IsAscending o.ticket c.operations inv.ascending);
      below = λ x m. rw finish_rest.0 (inv.below x (finish-mem m));
      backward = λ x t m. inv.backward x t (finish-mem m);
      sized = sized-finish;
      tracked = tracked-finish;
      tail_below = λ q t e. rw finish_rest.0 (inv.tail_below q t (sym (finish_tail q) ∙ e));
      tailed = tailed-finish;
      guarded = guarded-finish;
    }

    module _ (acc : IsAccounted c) where
      forgets : String → Bool
      forgets s = (((finish c o).objects o.queue).size == 0) && (o.session_id == s)

      finish_lookup :
          (s : String)
          → get_key s (finish c o).queues ≡ (if forgets s then none else get_key s c.queues)
      unfolding forgets
      finish_lookup s =
          rw finish_queues (ground (arith, get_key-delete_key s o.session_id c.queues))

      -- The map forgets the queue when its last operation settles.
      kept_key :
          (s : String) (q : ℕ)
          → get_key s (finish c o).queues ≡ some q
          → get_key s c.queues ≡ some q
      kept_key s q e = ground (arith, finish_lookup s)

      kept_queue :
          (s : String)
          → get_key s (finish c o).queues ≡ some o.queue
          → ((finish c o).objects o.queue).size ≢ 0
      unfolding forgets
      kept_queue s e z =
          let e' = acc.owned o.session_id s o.queue (acc.located o live) (kept_key s o.queue e) in
          let hit : (o.session_id == s) ≡ true =
            subst (λ (k : String). (o.session_id == k) ≡ true) e' (==-refl o.session_id) in
          ground (arith, finish_lookup s)

      located-finish :
          (x : Operation)
          → Memᴰ x (finish c o).operations
          → get_key x.session_id (finish c o).queues ≡ some x.queue
      unfolding forgets
      located-finish x m = elim (Bool-cases (forgets x.session_id)) [
        | inr kept ↦ finish_lookup x.session_id ∙ rw kept (acc.located x (finish-mem m))
        | inl gone ↦
            let (z, e) = and-true gone in
            let same : o.session_id ≡ x.session_id = eq_of_== e in
            let there = rw (← same) at (acc.located x (finish-mem m)) in
            let q : x.queue ≡ o.queue = some_inj (sym there ∙ acc.located o live) in
            let hit : in_queue o.queue x ≡ true = rw q (==-refl o.queue) in
            let busy = mem-count_rows (in_queue o.queue) (finish c o).operations m hit in
            let z' : ((finish c o).objects o.queue).size ≡ 0 = eq_of_== z in
            absurd (omega (arith, sized-finish o.queue))
      ]

      busy-finish :
          (s : String) (q : ℕ)
          → get_key s (finish c o).queues ≡ some q
          → 0 < ((finish c o).objects q).size
      busy-finish s q e = elim (Bool-cases (o.queue == q)) [
        | inl hit ↦
            let q' : o.queue ≡ q = eq_of_== hit in
            let nz = kept_queue s (e ∙ ap some (sym q')) in rw (← q') (ground arith)
        | inr miss ↦ ground (arith, finish_size q, acc.busy s q (kept_key s q e))
      ]

      bounded-finish :
          (q : ℕ)
          → (((finish c o).objects q).size ≤ (finish c o).max_operations)
            × (length ((finish c o).objects q).parallel ≤ 4)
      bounded-finish q = (
        ground (arith, finish_size q, finish_rest, acc.bounded q),
        ground (
          arith,
          finish_parallel q,
          acc.bounded q,
          length-delete_member o.ticket (c.objects q).parallel,
        ),
      )

      length-finish_queues : length (finish c o).queues ≤ length c.queues
      length-finish_queues =
          rw finish_queues (ground (arith, length-delete_key o.session_id c.queues))

      pub finish-IsAccounted : IsAccounted (finish c o)
      finish-IsAccounted = record {
        located = located-finish;
        known = λ s q e. rw finish_rest.1 (acc.known s q (kept_key s q e));
        owned = λ s s' q e f. acc.owned s s' q (kept_key s q e) (kept_key s' q f);
        busy = busy-finish;
        disjoint = λ s r e.
            let no = acc.disjoint s r (rw finish_rest.2 at e) in ground (arith, finish_lookup s);
        bounded = bounded-finish;
        roomy = rw (finish_rest.2, finish_rest.4) (omega (arith, acc.roomy, length-finish_queues));
        positive = rw finish_rest.3 acc.positive;
      }
