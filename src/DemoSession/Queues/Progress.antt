-- ===== src/DemoSession/Queues/Progress.antt =====
-- demo-session.coordinator.ts: no live operation waits for ever. While one is live, one can move; each
-- move brings the operations nearer to their end; and at the end no queue is left.
use cost_engine_orchestratio.Base.{
  ℕ, suc, ◌+◌, ◌≤◌, ◌<◌, String, Bool, true, ◌≡◌, ◌≢◌, ◌⊎◌, zero, inl, inr, refl, sym, ap, subst,
  List, [], ◌∷◌, Memᴰ, none, ◌==◌, nat_eq, ==-refl, eq_of_==, Bool-cases, Option-cases, not,
  all_rows, update_rows, arith,
}
use cost_engine_orchestratio.Base.Rows.{any_row-mem}
use cost_engine_orchestratio.DemoSession.Maps.{get_key}
use cost_engine_orchestratio.DemoSession.Coordinator.{
  Coordinator, Operation, Phase, waiting, revalidating, running, can_start, is_live, set_phase,
  finish, remove_operation,
}
use cost_engine_orchestratio.DemoSession.Queues.Operations.{IsAscending}
use cost_engine_orchestratio.DemoSession.Queues.Invariant.{IsCoordinated}
use cost_engine_orchestratio.DemoSession.Queues.Settle.{finish_operations}
use cost_engine_orchestratio.DemoSession.Queues.Steps.{
  Move, begin, confirm, settle, moves, Scheduled, turn, Scheduled-IsCoordinated,
}
use cost_engine_orchestratio.DemoSession.Queues.Safety.{queue_live}

abbrev pub moves_left : Phase → ℕ
moves_left waiting = 3
moves_left revalidating = 2
moves_left running = 1

-- how many moves the live operations have before them at most
unfoldable pub work : List Operation → ℕ
work [] = 0
work (o ∷ os) = moves_left o.phase + work os

work-remove_operation :
    (os : List Operation) (o : Operation)
    → IsAscending os
    → Memᴰ o os
    → work os ≡ moves_left o.phase + work (remove_operation o.ticket os)
unfolding work remove_operation
work-remove_operation [] o h m = elim m [ ]
work-remove_operation (y ∷ os) o h (Memᴰ.head e) = rw (e, ==-refl y.ticket) refl
work-remove_operation (y ∷ os) o h (Memᴰ.tail m) = elim (Bool-cases (y.ticket == o.ticket)) [
  | inl hit ↦ let e : y.ticket ≡ o.ticket = eq_of_== hit in absurd (omega (arith, h.0 o m))
  | inr miss ↦ rw miss (omega (arith, work-remove_operation os o h.1 m))
]

above-update :
    (os : List Operation) (t : ℕ) (p : Phase)
    → ((x : Operation) → Memᴰ x os → t < x.ticket)
    → work (update_rows (λ o. o.ticket == t) (λ o. record o { phase = p }) os) ≡ work os
unfolding work update_rows
above-update [] t p h = refl
above-update (y ∷ os) t p h = elim (Bool-cases (y.ticket == t)) [
  | inl hit ↦ let e : y.ticket ≡ t = eq_of_== hit in absurd (omega (arith, h y (Memᴰ.head refl)))
  | inr miss ↦ rw miss (omega (arith, above-update os t p (λ x m. h x (Memᴰ.tail m))))
]

work-update :
    (os : List Operation) (o : Operation) (p : Phase)
    → IsAscending os
    → Memᴰ o os
    → work (update_rows (λ x. x.ticket == o.ticket) (λ x. record x { phase = p }) os)
        + moves_left o.phase
      ≡ work os + moves_left p
unfolding work update_rows
work-update [] o p h m = elim m [ ]
work-update (y ∷ os) o p h (Memᴰ.head e) =
    subst
      (λ (z : Operation).
        work (update_rows (λ x. x.ticket == z.ticket) (λ x. record x { phase = p }) (y ∷ os))
          + moves_left z.phase
        ≡ work (y ∷ os) + moves_left p)
      (sym e) (rw (==-refl y.ticket) (omega (arith, above-update os y.ticket p h.0)))
work-update (y ∷ os) o p h (Memᴰ.tail m) = elim (Bool-cases (y.ticket == o.ticket)) [
  | inl hit ↦ let e : y.ticket ≡ o.ticket = eq_of_== hit in absurd (omega (arith, h.0 o m))
  | inr miss ↦ rw miss (omega (arith, work-update os o p h.1 m))
]

moves_left_pos : (p : Phase) → 0 < moves_left p
moves_left_pos waiting = omega arith
moves_left_pos revalidating = omega arith
moves_left_pos running = omega arith

Move-work : {c d : Coordinator} → IsCoordinated c → Move c d → work d.operations < work c.operations
unfolding set_phase
Move-work inv (begin c o m w h) =
    omega (arith, work-update c.operations o revalidating inv.serial.ascending m, ap moves_left w)
Move-work inv (confirm c o m e) =
    omega (arith, work-update c.operations o running inv.serial.ascending m, ap moves_left e)
Move-work inv (settle c o m h) = rw (finish_operations c o) (
    omega
      (arith, work-remove_operation c.operations o inv.serial.ascending m, moves_left_pos o.phase))

no_work : (os : List Operation) → work os ≡ 0 → os ≡ []
unfolding work
no_work [] h = refl
no_work (o ∷ os) h = absurd (omega (arith, moves_left_pos o.phase))

List-cases : (os : List Operation) → (os ≡ []) ⊎ (os ≢ [])
List-cases [] = inl refl
List-cases (o ∷ os) = inr (λ e. cc)

waiting-cases : (p : Phase) → (p ≡ waiting) ⊎ (p ≢ waiting)
waiting-cases waiting = inl refl
waiting-cases revalidating = inr (λ e. cc)
waiting-cases running = inr (λ e. cc)

-- A run of moves, with their number.
pub data Moves : ℕ → Coordinator → Coordinator → Type 0 where
  done : (c : Coordinator) → Moves 0 c c
  then_move : {n : ℕ} {c d e : Coordinator} → Move c d → Moves n d e → Moves (suc n) c e

all_rows-each :
    (p : ℕ → Bool) (ts : List ℕ) → ((t : ℕ) → Memᴰ t ts → p t ≡ true) → all_rows p ts ≡ true
unfolding all_rows
all_rows-each p [] h = refl
all_rows-each p (t ∷ ts) h =
    rw (h t (Memᴰ.head refl)) (all_rows-each p ts (λ u m. h u (Memᴰ.tail m)))

-- The first of the live operations awaits nothing that is live.
first_can_start :
    (c : Coordinator) (o : Operation) (os : List Operation)
    → IsCoordinated c
    → c.operations ≡ o ∷ os
    → can_start c o ≡ true
unfolding can_start
first_can_start c o os inv e = all_rows-each (λ t. not (is_live c t)) o.awaits settled
  where
    here : Memᴰ o c.operations
    here = rw e (Memᴰ.head refl)

    lower : (x : Operation) → Memᴰ x (o ∷ os) → o.ticket ≤ x.ticket
    lower x (Memᴰ.head f) = omega (arith, ap (λ (y : Operation). y.ticket) f)
    lower x (Memᴰ.tail m) = omega (arith, (subst IsAscending e inv.serial.ascending).0 x m)

    settled : (t : ℕ) → Memᴰ t o.awaits → not (is_live c t) ≡ true
    settled t m = elim (Bool-cases (is_live c t)) [
      | inr dead ↦ rw dead refl
      | inl live ↦
          let (x, n, f) = any_row-mem (λ (y : Operation). y.ticket == t) c.operations live in
          let f' : x.ticket ≡ t = eq_of_== f in
          absurd (omega (arith, lower x (subst (Memᴰ x) e n), inv.serial.backward o t here m))
    ]

-- the move of the first operation
first-Move :
    (c : Coordinator) (os : List Operation)
    → IsCoordinated c
    → c.operations ≡ os
    → os ≢ []
    → (d : Coordinator) × Move c d
first-Move c [] inv e h = absurd (h refl)
first-Move c (o ∷ os) inv e h = elim (waiting-cases o.phase) [
  | inl w ↦ (set_phase c o.ticket revalidating, begin c o here w (first_can_start c o os inv e))
  | inr w ↦ (finish c o, settle c o here w)
]
  where
    here : Memᴰ o c.operations
    here = rw e (Memᴰ.head refl)

-- While an operation is live, one can move.
pub Scheduled-progress :
    {c : Coordinator} → Scheduled c → c.operations ≢ [] → (d : Coordinator) × Move c d
Scheduled-progress {c} s h = first-Move c c.operations (Scheduled-IsCoordinated s) refl h

no_live_queue :
    {c : Coordinator} → Scheduled c → c.operations ≡ [] → (s : String) → get_key s c.queues ≡ none
no_live_queue {c} h e s = elim (Option-cases (get_key s c.queues)) [
  | inl f ↦ f
  | inr p ↦ let (o, m, f) = (queue_live h s).0 p in elim (subst (Memᴰ o) e m) [ ]
]

drain :
    (fuel : ℕ) {c : Coordinator}
    → Scheduled c
    → work c.operations ≤ fuel
    → (n : ℕ) × (d : Coordinator) × Moves n c d
      × (d.operations ≡ [])
      × ((s : String) → get_key s d.queues ≡ none)
drain zero {c} s h = (0, c, done c, e, no_live_queue s e)
  where
    e : c.operations ≡ []
    e = no_work c.operations (omega arith)
drain (suc fuel) {c} s h = elim (List-cases c.operations) [
  | inl e ↦ (0, c, done c, e, no_live_queue s e)
  | inr more ↦
      let (d, m) = Scheduled-progress s more in
      let less = Move-work (Scheduled-IsCoordinated s) m in
      let (n, e, ms, empty, gone) = drain fuel (turn s (moves m)) (omega arith) in
      (suc n, e, then_move m ms, empty, gone)
]

-- All the operations that are live can settle, and then no session has a queue.
pub Scheduled-drains :
    {c : Coordinator}
    → Scheduled c
    → (n : ℕ) × (d : Coordinator) × Moves n c d
      × (d.operations ≡ [])
      × ((s : String) → get_key s d.queues ≡ none)
Scheduled-drains {c} s = drain (work c.operations) s (omega arith)
