-- ===== src/DemoSession/Queues/Added.antt =====
-- demo-session.coordinator.ts: an operation that is admitted to a queue, and chained behind the earlier
-- ones, keeps the order of the operations.
use cost_engine_orchestratio.Base.{
  ℕ, suc, ◌+◌, ◌<◌, String, Bool, true, false, ◌≡◌, inl, inr, refl, sym, ap, subst, ◌∙◌, List, [],
  ◌∷◌, ◌++◌, Memᴰ, Option, some, if◌then◌else◌, ◌==◌, nat_eq, ==-refl, eq_of_==, Bool-cases,
  nat_beq_iff, count_rows, arith,
}
use cost_engine_orchestratio.Base.Rows.{
  mem-append_cases, mem-append_left, mem-append_last, mem-single,
}
use cost_engine_orchestratio.DemoSession.Coordinator.{
  Coordinator, Operation, waiting, Queue, add_operation, put_queue,
}
use cost_engine_orchestratio.DemoSession.Queues.Operations.{
  count_rows-append, tickets_of-append, append-IsAscending, tickets_of,
}
use cost_engine_orchestratio.DemoSession.Queues.Invariant.{
  IsSerial, Conflicts, Awaits, IsBehindTail, in_queue, parallel_in,
}

-- A queue as it is before an admission: the one of the session, or a new one.
pub record IsOpen (c : Coordinator) (q : ℕ) (v : Queue) : Type 0 where
  pub sized : v.size ≡ count_rows (in_queue q) c.operations
  pub tracked : v.parallel ≡ tickets_of (parallel_in q) c.operations
  pub tail_below : (t : ℕ) → v.tail ≡ some t → t < c.next_ticket
  pub tailed :
      (a : Operation)
      → Memᴰ a c.operations
      → a.queue ≡ q
      → a.is_parallel ≡ false
      → IsBehindTail c.operations v.tail a

abbrev pub entered : Coordinator → List (String × ℕ) → ℕ → Queue → ℕ → Coordinator
entered c queues q v next_queue = record c {
  queues = queues;
  objects = put_queue c.objects q (record v { size = v.size + 1 });
  next_queue = next_queue;
}

module _ (c : Coordinator) (queues : List (String × ℕ)) (q : ℕ) (v : Queue) (next_queue : ℕ)
    (id : String) (parallel : Bool) (awaits : List ℕ) (w : Queue) where
  abbrev pub added : Coordinator
  added = add_operation (entered c queues q v next_queue) id q parallel awaits w

  abbrev pub new : Operation
  new = record {
    ticket = c.next_ticket;
    session_id = id;
    queue = q;
    is_parallel = parallel;
    awaits = awaits;
    phase = waiting;
  }

  pub added_object : (i : ℕ) → added.objects i ≡ (if i == q then w else c.objects i)
  added_object i = ground arith

  added_hit : (i : ℕ) → (i == q) ≡ true → added.objects i ≡ w
  added_hit i hit = ground (arith, added_object i)

  added_miss : (i : ℕ) → (i == q) ≡ false → added.objects i ≡ c.objects i
  added_miss i miss = ground (arith, added_object i)

  old-added : {a : Operation} → Memᴰ a c.operations → Memᴰ a added.operations
  old-added m = mem-append_left c.operations (new ∷ []) m

  Awaits-added : (a b : Operation) → Awaits c.operations b a → Awaits added.operations b a
  Awaits-added a b (inl m) = inl m
  Awaits-added a b (inr (x, m, par, same, lo, hi, k)) = inr (x, old-added m, par, same, lo, hi, k)

  IsBehindTail-added :
      (tail : Option ℕ) (a : Operation)
      → IsBehindTail c.operations tail a
      → IsBehindTail added.operations tail a
  IsBehindTail-added tail a (inl e) = inl e
  IsBehindTail-added tail a (inr (x, m, par, same, e, lo)) = inr (x, old-added m, par, same, e, lo)

  module _ (inv : IsSerial c) (open_queue : IsOpen c q v) (size : w.size ≡ v.size + 1)
      (members : w.parallel ≡ (if parallel then v.parallel ++ c.next_ticket ∷ [] else v.parallel))
      (tail : w.tail ≡ (if parallel then v.tail else some c.next_ticket))
      (early : (t : ℕ) → Memᴰ t awaits → t < c.next_ticket)
      (covers : (a : Operation)
        → Memᴰ a c.operations
        → Conflicts a new
        → Awaits c.operations new a) where
    added-cases :
        {P : Operation → Type 0}
        → ((a : Operation) → Memᴰ a c.operations → P a)
        → P new
        → (a : Operation) → Memᴰ a added.operations
        → P a
    added-cases {P} old last a m = elim (mem-append_cases c.operations m) [
      | inl n ↦ old a n
      | inr n ↦ subst P (sym (mem-single n)) last
    ]

    last_tail :
        (a : Operation)
        → Memᴰ a c.operations
        → a.queue ≡ q
        → a.is_parallel ≡ false
        → (par : Bool) → par ≡ parallel
        → IsBehindTail added.operations (if par then v.tail else some c.next_ticket) a
    last_tail a m same e true f = IsBehindTail-added v.tail a (open_queue.tailed a m same e)
    last_tail a m same e false f =
        inr (new, mem-append_last c.operations new, sym f, sym same, refl, inv.below a m)

    tailed_old :
        (a : Operation)
        → Memᴰ a c.operations
        → a.is_parallel ≡ false
        → IsBehindTail added.operations (added.objects a.queue).tail a
    tailed_old a m e = elim (Bool-cases (a.queue == q)) [
      | inl hit ↦
          subst (λ (t : Option ℕ). IsBehindTail added.operations t a)
            (sym (ap (λ (o : Queue). o.tail) (added_hit a.queue hit) ∙ tail))
            (last_tail a m (eq_of_== hit) e parallel refl)
      | inr miss ↦
          subst (λ (t : Queue). IsBehindTail added.operations t.tail a)
            (sym (added_miss a.queue miss)) (IsBehindTail-added _ a (inv.tailed a m e))
    ]

    tailed_new : parallel ≡ false → IsBehindTail added.operations (added.objects q).tail new
    tailed_new e = inl (ground (arith, ==-refl q))

    tailed-added :
        (a : Operation)
        → Memᴰ a added.operations
        → a.is_parallel ≡ false
        → IsBehindTail added.operations (added.objects a.queue).tail a
    tailed-added a m =
        added-cases
          {P = λ (x : Operation).
            (x.is_parallel ≡ false → IsBehindTail added.operations (added.objects x.queue).tail x)}
          tailed_old tailed_new a m

    guarded-added :
        (a b : Operation)
        → Memᴰ a added.operations
        → Memᴰ b added.operations
        → a.ticket < b.ticket
        → Conflicts a b
        → (b.phase ≡ waiting) × Awaits added.operations b a
    guarded-added a b ma mb lt conflict = elim (mem-append_cases c.operations mb) [
      | inl nb ↦ elim (mem-append_cases c.operations ma) [
        | inl na ↦ let (w', k) = inv.guarded a b na nb lt conflict in (w', Awaits-added a b k)
        | inr na ↦
            let e = ap (λ (x : Operation). x.ticket) (mem-single na) in
            absurd (omega (arith, inv.below b nb, e, lt))
      ]
      | inr nb ↦
          let eb = mem-single nb in
          let et = ap (λ (x : Operation). x.ticket) eb in
          elim (mem-append_cases c.operations ma) [
            | inl na ↦
                let conflict' = subst (Conflicts a) eb conflict in
                subst (λ (x : Operation). (x.phase ≡ waiting) × Awaits added.operations x a)
                  (sym eb) (refl, Awaits-added a new (covers a na conflict'))
            | inr na ↦
                let e = ap (λ (x : Operation). x.ticket) (mem-single na) in
                absurd (omega (arith, et, e, lt))
          ]
    ]

    added_sized : (i : ℕ) → (added.objects i).size ≡ count_rows (in_queue i) added.operations
    added_sized i = elim (Bool-cases (i == q)) [
      | inl hit ↦
          let e : i ≡ q = eq_of_== hit in
          rw (added_object i, hit, count_rows-append (in_queue i) c.operations new, e)
            (ground (arith, ==-refl q, size, open_queue.sized))
      | inr miss ↦
          rw (added_object i, miss, count_rows-append (in_queue i) c.operations new)
            (ground (arith, nat_beq_iff q i, nat_beq_iff i q, inv.sized i))
    ]

    added_tracked :
        (i : ℕ) → (added.objects i).parallel ≡ tickets_of (parallel_in i) added.operations
    added_tracked i = elim (Bool-cases (i == q)) [
      | inl hit ↦
          let e : i ≡ q = eq_of_== hit in
          rw (added_object i, hit, tickets_of-append (parallel_in i) c.operations new, e)
            (ground (arith, ==-refl q, members, open_queue.tracked))
      | inr miss ↦
          rw (added_object i, miss, tickets_of-append (parallel_in i) c.operations new)
            (ground (arith, nat_beq_iff q i, nat_beq_iff i q, inv.tracked i))
    ]

    added_tail_below : (i t : ℕ) → (added.objects i).tail ≡ some t → t < suc c.next_ticket
    added_tail_below i t e = ground (arith, tail, open_queue.tail_below t, inv.tail_below i t)

    pub added-IsSerial : IsSerial added
    added-IsSerial = record {
      ascending = append-IsAscending c.operations new inv.ascending inv.below;
      below = added-cases (λ a n. omega (arith, inv.below a n)) (omega arith);
      backward = λ o t m k.
          added-cases {P = λ (x : Operation). (Memᴰ t x.awaits → t < x.ticket)}
            (λ a n. inv.backward a t n) (early t) o m k;
      sized = added_sized;
      tracked = added_tracked;
      tail_below = added_tail_below;
      tailed = tailed-added;
      guarded = guarded-added;
    }
