-- ===== src/DemoSession/Queues/Resets.antt =====
-- demo-session.coordinator.ts: reservations of resets leave the operations as they are.
use cost_engine_orchestratio.Base.{
  ℕ, suc, ◌+◌, ◌≤◌, String, Bool, true, false, ◌≡◌, inl, inr, refl, ap, subst, Option, none, some,
  if◌then◌else◌, ◌==◌, nat_eq, string_eq, Bool-cases, Option-cases, length, arith, List,
}
use text.Mathlib.TextEquality.{eq_iff}
use cost_engine_orchestratio.DemoSession.Errors.{returned, thrown, reset_conflict, ◌>>◌}
use cost_engine_orchestratio.DemoSession.Maps.{
  get_key, set_key, delete_key, get_key-set_key, get_key-delete_key, length-set_key,
  length-set_known, length-delete_key,
}
use cost_engine_orchestratio.DemoSession.Coordinator.{
  Coordinator, ResetReservation, reserve, reserve_cleanup, finish_reset, mark_unknown,
  assert_not_resetting, sessions_full, has_queue, reset_error,
}
use cost_engine_orchestratio.DemoSession.Queues.Invariant.{IsCoordinated}

-- The reservations are free to change as long as no session with a queue gets one.
with_resets :
    (c : Coordinator) (resets : List (String × ResetReservation)) (n : ℕ)
    → IsCoordinated c
    → ((s : String) (r : ResetReservation) → get_key s resets ≡ some r → get_key s c.queues ≡ none)
    → length c.queues + length resets ≤ c.max_sessions
    → IsCoordinated (record c { resets = resets; next_reservation = n })
with_resets c resets n inv disjoint roomy = record {
  serial = record {
    ascending = inv.serial.ascending;
    below = inv.serial.below;
    backward = inv.serial.backward;
    sized = inv.serial.sized;
    tracked = inv.serial.tracked;
    tail_below = inv.serial.tail_below;
    tailed = inv.serial.tailed;
    guarded = inv.serial.guarded;
  };
  accounted = record {
    located = inv.accounted.located;
    known = inv.accounted.known;
    owned = inv.accounted.owned;
    busy = inv.accounted.busy;
    disjoint = disjoint;
    bounded = inv.accounted.bounded;
    roomy = roomy;
    positive = inv.accounted.positive;
  };
}

reset_tests :
    (r : Option ResetReservation) (queued full : Bool) (entry x : ℕ × Coordinator)
    → (reset_error r
        >> (if queued
            then thrown reset_conflict
            else if full
            then thrown reset_conflict
            else returned entry))
      ≡ returned x
    → (r ≡ none) × (queued ≡ false) × (full ≡ false) × (entry ≡ x)
reset_tests none queued full entry x h = ground arith
reset_tests (some r) queued full entry x h = elim (Bool-cases r.unknown) [
  | inl e ↦ ground arith
  | inr e ↦ ground arith
]

-- A reservation is made for a session that has no queue and no reservation, while there is room.
pub reserve_cleanup_lem :
    (c : Coordinator) (id : String) {x : ℕ × Coordinator}
    → reserve_cleanup c id ≡ returned x
    → (get_key id c.resets ≡ none)
      × (get_key id c.queues ≡ none)
      × (sessions_full c ≡ false)
      × ((c.next_reservation, reserve c id) ≡ x)
unfolding reserve_cleanup assert_not_resetting
reserve_cleanup_lem c id {x} h =
    let (a, b, f, e) =
      reset_tests (get_key id c.resets) (has_queue (get_key id c.queues)) (sessions_full c)
        (c.next_reservation, reserve c id) x h in
    (a, no_queue (get_key id c.queues) b, f, e)
  where
    no_queue : (k : Option ℕ) → has_queue k ≡ false → k ≡ none
    no_queue none h = refl
    no_queue (some q) h = cc

module _ (c : Coordinator) (id : String) (inv : IsCoordinated c) where
  pub reserve_cleanup-IsCoordinated :
      {object : ℕ} {d : Coordinator} → reserve_cleanup c id ≡ returned (object, d) → IsCoordinated d
  reserve_cleanup-IsCoordinated h =
      let (none_yet, idle, room, e) = reserve_cleanup_lem c id h in
      subst IsCoordinated (ap (λ (x : ℕ × Coordinator). x.1) e) (
        with_resets c
          (set_key id (record { object = c.next_reservation; unknown = false }) c.resets)
          (suc c.next_reservation) inv
          (λ s r f. ground (
            arith,
            get_key-set_key s id (record { object = c.next_reservation; unknown = false }) c.resets,
            inv.accounted.disjoint s r,
            eq_iff id s,
            idle,
          ))
          (ground (
            arith,
            room,
            length-set_key id (record { object = c.next_reservation; unknown = false }) c.resets
                none_yet,
          )))

  pub finish_reset-IsCoordinated :
      (object : ℕ) {d : Coordinator} → finish_reset c id object ≡ returned d → IsCoordinated d
  unfolding finish_reset
  finish_reset-IsCoordinated object {d} h = subst IsCoordinated e (
      with_resets c (delete_key id c.resets) c.next_reservation inv
        (λ s r f. ground (arith, get_key-delete_key s id c.resets, inv.accounted.disjoint s r))
        (omega (arith, inv.accounted.roomy, length-delete_key id c.resets)))
    where
      e : record c { resets = delete_key id c.resets } ≡ d
      e = ground arith

  pub mark_unknown-IsCoordinated : (object : ℕ) → IsCoordinated (mark_unknown c id object)
  unfolding mark_unknown
  mark_unknown-IsCoordinated object = elim (Option-cases (get_key id c.resets)) [
    | inl e ↦ rw e inv
    | inr (r, e) ↦ rw e (elim (Bool-cases (r.object == object)) [
      | inr miss ↦ rw miss inv
      | inl hit ↦ rw hit (
          with_resets c (set_key id (record r { unknown = true }) c.resets) c.next_reservation inv
            (λ s r' f. ground (
              arith,
              get_key-set_key s id (record r { unknown = true }) c.resets,
              inv.accounted.disjoint s r',
              inv.accounted.disjoint s r,
              eq_iff id s,
            ))
            (rw (length-set_known id (record r { unknown = true }) c.resets e) inv.accounted.roomy))
    ])
  ]
