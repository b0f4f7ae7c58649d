-- ===== src/DemoSession/Queues/Accounts.antt =====
-- demo-session.coordinator.ts: an admission keeps the account of queues, sessions and reservations.
use cost_engine_orchestratio.Base.{
  ℕ, suc, ◌+◌, ◌<◌, String, Bool, true, false, ◌≡◌, inl, inr, refl, sym, ap, subst, List, [], ◌∷◌,
  ◌++◌, Memᴰ, none, some, if◌then◌else◌, ◌==◌, nat_eq, string_eq, ==-refl, length, arith,
}
use cost_engine_orchestratio.Base.Rows.{mem-append_cases, mem-single}
use cost_engine_orchestratio.DemoSession.Errors.{returned}
use cost_engine_orchestratio.DemoSession.Maps.{get_key, set_key, get_key-set_key, length-set_key}
use cost_engine_orchestratio.DemoSession.Context.{Session}
use cost_engine_orchestratio.DemoSession.Coordinator.{
  Coordinator, Operation, Queue, empty_queue, sessions_full, is_full, run, run_parallel,
}
use cost_engine_orchestratio.DemoSession.Queues.Invariant.{IsAccounted, IsCoordinated}
use cost_engine_orchestratio.DemoSession.Queues.Added.{added_object}
use cost_engine_orchestratio.DemoSession.Queues.Admission.{
  joined, awaits_of, chained, chained-IsSerial, new_queue-IsOpen, queue-IsOpen, WasAdmitted,
  to_new_queue, to_queue, run-WasAdmitted, run_parallel-WasAdmitted,
}
use text.Mathlib.TextEquality.{eq_iff}

pub length-append_last : (xs : List ℕ) (t : ℕ) → length (xs ++ t ∷ []) ≡ suc (length xs)
length-append_last [] t = refl
length-append_last (x ∷ xs) t = ap suc (length-append_last xs t)

joined_bounds :
    (par : Bool) (v : Queue) (t : ℕ)
    → ((joined par v t).size ≡ v.size + 1)
      × (length (joined par v t).parallel
          ≡ (if par then suc (length v.parallel) else length v.parallel))
joined_bounds true v t = (refl, length-append_last v.parallel t)
joined_bounds false v t = (refl, refl)

module _ (c : Coordinator) (acc : IsAccounted c) (parallel : Bool) (id : String)
    (free : get_key id c.resets ≡ none) where
  module _ (absent : get_key id c.queues ≡ none) (room : sessions_full c ≡ false) where
    opened : Coordinator
    opened =
        chained c parallel id (set_key id c.next_queue c.queues) c.next_queue empty_queue
          (suc c.next_queue)

    opened_object :
        (i : ℕ)
        → opened.objects i
          ≡ (if i == c.next_queue then joined parallel empty_queue c.next_ticket else c.objects i)
    unfolding opened
    opened_object i =
        added_object c (set_key id c.next_queue c.queues) c.next_queue empty_queue
          (suc c.next_queue) id parallel (awaits_of parallel empty_queue)
          (joined parallel empty_queue c.next_ticket) i

    opened_key :
        (s : String)
        → get_key s opened.queues ≡ (if id == s then some c.next_queue else get_key s c.queues)
    unfolding opened
    opened_key s = get_key-set_key s id c.next_queue c.queues

    opened-located :
        (o : Operation)
        → Memᴰ o opened.operations
        → get_key o.session_id opened.queues ≡ some o.queue
    unfolding opened
    opened-located o m = elim (mem-append_cases c.operations m) [
      | inr n ↦ let e = mem-single n in rw (e, opened_key id, ==-refl id) refl
      | inl n ↦
          ground (arith, opened_key o.session_id, acc.located o n, eq_iff id o.session_id, absent)
    ]

    opened-owned :
        (s s' : String) (q : ℕ)
        → get_key s opened.queues ≡ some q
        → get_key s' opened.queues ≡ some q
        → s ≡ s'
    opened-owned s s' q e f = ground (
      arith,
      opened_key s,
      opened_key s',
      acc.owned s s' q,
      acc.known s q,
      acc.known s' q,
      eq_iff id s,
      eq_iff id s',
    )

    opened-busy :
        (s : String) (q : ℕ) → get_key s opened.queues ≡ some q → 0 < (opened.objects q).size
    opened-busy s q e = ground (
      arith,
      opened_key s,
      opened_object q,
      acc.busy s q,
      acc.known s q,
      joined_bounds parallel empty_queue c.next_ticket,
    )

    opened-IsAccounted : IsAccounted opened
    unfolding opened
    opened-IsAccounted = record {
      located = opened-located;
      known = λ s q e. ground (arith, opened_key s, acc.known s q);
      owned = opened-owned;
      busy = opened-busy;
      disjoint = λ s r e. ground (arith, opened_key s, acc.disjoint s r, eq_iff id s, free);
      bounded = λ q. ground (
        arith,
        opened_object q,
        acc.bounded q,
        acc.positive,
        joined_bounds parallel empty_queue c.next_ticket,
      );
      roomy = ground (arith, room, length-set_key id c.next_queue c.queues absent);
      positive = acc.positive;
    }

  module _ (q : ℕ) (there : get_key id c.queues ≡ some q)
      (room : is_full c (some q) parallel ≡ false) where
    entry : Coordinator
    entry = chained c parallel id c.queues q (c.objects q) c.next_queue

    entry_object :
        (i : ℕ)
        → entry.objects i
          ≡ (if i == q then joined parallel (c.objects q) c.next_ticket else c.objects i)
    unfolding entry
    entry_object i =
        added_object c c.queues q (c.objects q) c.next_queue id parallel
          (awaits_of parallel (c.objects q)) (joined parallel (c.objects q) c.next_ticket) i

    entry-IsAccounted : IsAccounted entry
    unfolding entry
    entry-IsAccounted = record {
      located = λ o m. elim (mem-append_cases c.operations m) [
        | inl n ↦ acc.located o n
        | inr n ↦ let e = mem-single n in rw e there
      ];
      known = acc.known;
      owned = acc.owned;
      busy = λ s i e. ground (
        arith,
        entry_object i,
        acc.busy s i e,
        joined_bounds parallel (c.objects q) c.next_ticket,
      );
      disjoint = acc.disjoint;
      bounded = λ i. ground (
        arith,
        entry_object i,
        acc.bounded i,
        room,
        joined_bounds parallel (c.objects q) c.next_ticket,
      );
      roomy = acc.roomy;
      positive = acc.positive;
    }

WasAdmitted-IsCoordinated :
    (c : Coordinator) (parallel : Bool) (s : Session) (d : Coordinator)
    → IsCoordinated c
    → WasAdmitted c parallel s d
    → IsCoordinated d
unfolding opened entry
WasAdmitted-IsCoordinated c parallel s d inv was = elim was.admission [
  | to_new_queue absent room e ↦ subst IsCoordinated (sym e) (record {
    serial =
        chained-IsSerial c inv parallel s.session_id _ c.next_queue empty_queue _
          (new_queue-IsOpen c inv);
    accounted =
        opened-IsAccounted c inv.accounted parallel s.session_id was.not_resetting absent room;
  })
  | to_queue q there room e ↦ subst IsCoordinated (sym e) (record {
    serial =
        chained-IsSerial c inv parallel s.session_id _ q (c.objects q) _ (queue-IsOpen c inv q);
    accounted =
        entry-IsAccounted c inv.accounted parallel s.session_id was.not_resetting q there room;
  })
]

module _ (c : Coordinator) (s : Session) {d : Coordinator} (inv : IsCoordinated c) where
  pub run-IsCoordinated : run c s ≡ returned d → IsCoordinated d
  run-IsCoordinated h = WasAdmitted-IsCoordinated c false s d inv (run-WasAdmitted c s d h)

  pub run_parallel-IsCoordinated : run_parallel c s ≡ returned d → IsCoordinated d
  run_parallel-IsCoordinated h =
      WasAdmitted-IsCoordinated c true s d inv (run_parallel-WasAdmitted c s d h)
