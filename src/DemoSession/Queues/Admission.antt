-- ===== src/DemoSession/Queues/Admission.antt =====
-- demo-session.coordinator.ts: what an admission that does not throw makes of the queues, for the
-- exclusive operations of `run` and the parallel ones of `runParallel`.
use cost_engine_orchestratio.Base.{
  ℕ, suc, ◌+◌, ◌<◌, String, Bool, true, false, ◌&&◌, ◌≡◌, ◌≢◌, inl, inr, refl, sym, ap, subst, ◌∙◌,
  List, [], ◌∷◌, ◌++◌, Memᴰ, Option, none, some, if◌then◌else◌, nat_eq, string_eq, ==-refl,
  eq_of_==, Bool-cases, arith,
}
use cost_engine_orchestratio.Base.Rows.{mem-append_cases, mem-single}
use cost_engine_orchestratio.DemoSession.Errors.{
  Outcome, returned, thrown, queue_full, ◌>>◌, >>=-eq-returned, returned_inj,
}
use cost_engine_orchestratio.DemoSession.Maps.{get_key, set_key}
use cost_engine_orchestratio.DemoSession.Context.{Session, assert_trusted}
use cost_engine_orchestratio.DemoSession.Coordinator.{
  Coordinator, Operation, Queue, empty_queue, tail_tickets, sessions_full, is_full, admit, run,
  run_parallel, chain, chain_parallel, assert_not_resetting, ResetReservation, reset_error,
  enter_queue,
}
use cost_engine_orchestratio.DemoSession.Queues.Operations.{
  count_rows-absent, tickets_of-absent, mem-tickets_of, tickets_of-mem,
}
use cost_engine_orchestratio.DemoSession.Queues.Invariant.{
  IsSerial, IsCoordinated, Awaits, IsBehindTail, in_queue, parallel_in,
}
use cost_engine_orchestratio.DemoSession.Queues.Added.{IsOpen, entered, added, new, added-IsSerial}

-- what the new operation awaits
abbrev pub awaits_of : Bool → Queue → List ℕ
awaits_of true v = tail_tickets v.tail
awaits_of false v = tail_tickets v.tail ++ v.parallel

-- the queue with the new operation
abbrev pub joined : Bool → Queue → ℕ → Queue
joined true v t = record { tail = v.tail; size = v.size + 1; parallel = v.parallel ++ t ∷ [] }
joined false v t = record { tail = some t; size = v.size + 1; parallel = v.parallel }

abbrev pub chained : Coordinator → Bool → String → List (String × ℕ) → ℕ → Queue → ℕ → Coordinator
chained c parallel id queues q v next_queue =
    added c queues q v next_queue id parallel (awaits_of parallel v)
      (joined parallel v c.next_ticket)

-- the session had no queue, or its queue has room
pub data Admission (c : Coordinator) (parallel : Bool) (id : String) (d : Coordinator)
    : Type 0 where
  to_new_queue :
      get_key id c.queues ≡ none
      → sessions_full c ≡ false
      → d
        ≡ chained c parallel id
            (set_key id c.next_queue c.queues)
            c.next_queue
            empty_queue
            (suc c.next_queue)
      → Admission c parallel id d
  to_queue :
      (q : ℕ)
      → get_key id c.queues ≡ some q
      → is_full c (some q) parallel ≡ false
      → d ≡ chained c parallel id c.queues q (c.objects q) c.next_queue
      → Admission c parallel id d

-- What a call of `run` or `runParallel` that was admitted found, and did.
pub record WasAdmitted (c : Coordinator) (parallel : Bool) (s : Session) (d : Coordinator)
    : Type 0 where
  pub trusted : assert_trusted c.contexts s ≡ returned tt
  pub not_resetting : get_key s.session_id c.resets ≡ none
  pub admission : Admission c parallel s.session_id d

chain-entered :
    (c : Coordinator) (id : String) (queues : List (String × ℕ)) (q : ℕ) (v : Queue) (n : ℕ)
    → (chain id q (entered c queues q v n) ≡ chained c false id queues q v n)
      × (chain_parallel id q (entered c queues q v n) ≡ chained c true id queues q v n)
chain-entered c id queues q v n = (rw (==-refl q) refl, rw (==-refl q) refl)

-- Each test of `admit` that precedes its result.
admit_tests :
    (c : Coordinator) (id : String) (t : Outcome (Unit {0})) (r : Option ResetReservation)
    (full : Bool) (entry x : ℕ × Coordinator)
    → (t >> reset_error r >> (if full then thrown queue_full else returned entry)) ≡ returned x
    → (t ≡ returned tt) × (r ≡ none) × (full ≡ false) × (entry ≡ x)
admit_tests c id (returned tt) none true entry x h = cc
admit_tests c id (returned tt) none false entry x h = (refl, refl, refl, cc)
admit_tests c id (returned tt) (some r) full entry x h = elim (Bool-cases r.unknown) [
  | inl e ↦ ground arith
  | inr e ↦ ground arith
]
admit_tests c id (thrown e) r full entry x h = cc

admit_lem :
    (c : Coordinator) (s : Session) (parallel : Bool) {x : ℕ × Coordinator}
    → admit c s parallel ≡ returned x
    → (assert_trusted c.contexts s ≡ returned tt)
      × (get_key s.session_id c.resets ≡ none)
      × (is_full c (get_key s.session_id c.queues) parallel ≡ false)
      × (enter_queue c s.session_id (get_key s.session_id c.queues) ≡ x)
unfolding admit assert_not_resetting
admit_lem c s parallel h =
    admit_tests c s.session_id (assert_trusted c.contexts s) (get_key s.session_id c.resets)
      (is_full c (get_key s.session_id c.queues) parallel)
      (enter_queue c s.session_id (get_key s.session_id c.queues)) _ h

module _ (c : Coordinator) (s : Session) (d : Coordinator) where
  entry_of : Option ℕ → Coordinator
  entry_of k = (enter_queue c s.session_id k).1

  Admission-of :
      (parallel : Bool) (k : Option ℕ)
      → get_key s.session_id c.queues ≡ k
      → is_full c k parallel ≡ false
      → ((if parallel
            then chain_parallel s.session_id
                (enter_queue c s.session_id k).0
                (enter_queue c s.session_id k).1
            else chain s.session_id
                (enter_queue c s.session_id k).0
                (enter_queue c s.session_id k).1)
          ≡ d)
      → Admission c parallel s.session_id d
  Admission-of true none e full f =
      to_new_queue e full (sym f ∙ (chain-entered c s.session_id _ _ empty_queue _).1)
  Admission-of false none e full f =
      to_new_queue e full (sym f ∙ (chain-entered c s.session_id _ _ empty_queue _).0)
  Admission-of true (some q) e full f =
      to_queue q e full
        (sym f ∙ (chain-entered c s.session_id c.queues q (c.objects q) c.next_queue).1)
  Admission-of false (some q) e full f =
      to_queue q e full
        (sym f ∙ (chain-entered c s.session_id c.queues q (c.objects q) c.next_queue).0)

  pub run-WasAdmitted : run c s ≡ returned d → WasAdmitted c false s d
  unfolding run
  run-WasAdmitted h =
      let ((q, c'), admitted, e) = >>=-eq-returned (admit c s false) _ h in
      let (t, r, full, f) = admit_lem c s false admitted in
      record {
        trusted = t;
        not_resetting = r;
        admission = Admission-of false _ refl full (
            subst (λ (x : ℕ × Coordinator). chain s.session_id x.0 x.1 ≡ d) (sym f)
              (returned_inj e));
      }

  pub run_parallel-WasAdmitted : run_parallel c s ≡ returned d → WasAdmitted c true s d
  unfolding run_parallel
  run_parallel-WasAdmitted h =
      let ((q, c'), admitted, e) = >>=-eq-returned (admit c s true) _ h in
      let (t, r, full, f) = admit_lem c s true admitted in
      record {
        trusted = t;
        not_resetting = r;
        admission = Admission-of true _ refl full (
            subst (λ (x : ℕ × Coordinator). chain_parallel s.session_id x.0 x.1 ≡ d) (sym f)
              (returned_inj e));
      }

tail_tickets-mem : (o : Option ℕ) {t : ℕ} → Memᴰ t (tail_tickets o) → o ≡ some t
tail_tickets-mem none m = elim m [ ]
tail_tickets-mem (some t) m = ap some (sym (mem-single m))

mem-append_right : (xs : List ℕ) {ys : List ℕ} {t : ℕ} → Memᴰ t ys → Memᴰ t (xs ++ ys)
mem-append_right [] m = m
mem-append_right (x ∷ xs) m = Memᴰ.tail (mem-append_right xs m)

-- The queue that the operation enters is as the operations say.
module _ (c : Coordinator) (inv : IsCoordinated c) where
  no_queue : (q : ℕ) → c.next_queue ≡ q → (a : Operation) → Memᴰ a c.operations → a.queue ≢ q
  no_queue q e a m f =
      omega (arith, inv.accounted.known a.session_id a.queue (inv.accounted.located a m))

  pub new_queue-IsOpen : IsOpen c c.next_queue empty_queue
  new_queue-IsOpen = record {
    sized = sym (count_rows-absent _ c.operations (λ a m. absent a m));
    tracked = sym (tickets_of-absent _ c.operations (λ a m. ground (arith, absent a m)));
    tail_below = λ t e. cc;
    tailed = λ a m e _. absurd (no_queue _ refl a m e);
  }
    where
      absent : (a : Operation) → Memᴰ a c.operations → in_queue c.next_queue a ≡ false
      absent a m = elim (Bool-cases (in_queue c.next_queue a)) [
        | inl e ↦ absurd (no_queue _ refl a m (eq_of_== e))
        | inr e ↦ e
      ]

  pub queue-IsOpen : (q : ℕ) → IsOpen c q (c.objects q)
  queue-IsOpen q = record {
    sized = inv.serial.sized q;
    tracked = inv.serial.tracked q;
    tail_below = inv.serial.tail_below q;
    tailed = λ a m e par.
        subst (λ (i : ℕ). IsBehindTail c.operations (c.objects i).tail a) e
          (inv.serial.tailed a m par);
  }

  module _ (parallel : Bool) (id : String) (queues : List (String × ℕ)) (q : ℕ) (v : Queue) (n : ℕ)
      (o : IsOpen c q v) where
    tail-awaited : (par : Bool) (t : ℕ) → v.tail ≡ some t → Memᴰ t (awaits_of par v)
    tail-awaited true t e = rw e (Memᴰ.head refl)
    tail-awaited false t e = rw e (Memᴰ.head refl)

    awaited-below : (par : Bool) (t : ℕ) → Memᴰ t (awaits_of par v) → t < c.next_ticket
    awaited-below true t m = o.tail_below t (tail_tickets-mem v.tail m)
    awaited-below false t m = elim (mem-append_cases (tail_tickets v.tail) m) [
      | inl n ↦ o.tail_below t (tail_tickets-mem v.tail n)
      | inr n ↦
          let (x, k, e) =
            tickets_of-mem (parallel_in q) c.operations (subst (Memᴰ t) o.tracked n) in
          rw e (inv.serial.below x k)
    ]

    -- A later operation awaits each one in the queue that it may not overlap.
    awaited-covers :
        (par : Bool) (a b : Operation)
        → Memᴰ a c.operations
        → b.awaits ≡ awaits_of par v
        → b.ticket ≡ c.next_ticket
        → a.queue ≡ q
        → (a.is_parallel && par) ≡ false
        → Awaits c.operations b a
    awaited-covers par a b m eb et same conflict = elim (Bool-cases a.is_parallel) [
      | inr exclusive ↦ elim (o.tailed a m same exclusive) [
        | inl e ↦ inl (rw eb (tail-awaited par a.ticket e))
        | inr (x, n, xp, xq, e, lo) ↦ inr (
          x,
          n,
          xp,
          xq,
          lo,
          omega (arith, et, inv.serial.below x n),
          rw eb (tail-awaited par x.ticket e),
        )
      ]
      | inl shared ↦
          let exclusive : par ≡ false = ground arith in
          let hit : parallel_in q a ≡ true = ground (arith, ==-refl q) in
          inl (
            rw (eb, exclusive)
              (mem-append_right (tail_tickets v.tail)
                (rw o.tracked (mem-tickets_of (parallel_in q) c.operations m hit))))
    ]

    pub chained-IsSerial : IsSerial (chained c parallel id queues q v n)
    chained-IsSerial =
        added-IsSerial c queues q v n id parallel (awaits_of parallel v)
          (joined parallel v c.next_ticket) inv.serial o (joined_size parallel)
          (joined_parallel parallel) (joined_tail parallel) (awaited-below parallel)
          (λ a m conflict. awaited-covers parallel a joining m refl refl conflict.0 conflict.1)
      where
        joining : Operation
        joining =
            new c queues q v n id parallel (awaits_of parallel v) (joined parallel v c.next_ticket)

        joined_size : (par : Bool) → (joined par v c.next_ticket).size ≡ v.size + 1
        joined_size true = refl
        joined_size false = refl

        joined_parallel :
            (par : Bool)
            → (joined par v c.next_ticket).parallel
              ≡ (if par then v.parallel ++ c.next_ticket ∷ [] else v.parallel)
        joined_parallel true = refl
        joined_parallel false = refl

        joined_tail :
            (par : Bool)
            → (joined par v c.next_ticket).tail ≡ (if par then v.tail else some c.next_ticket)
        joined_tail true = refl
        joined_tail false = refl
