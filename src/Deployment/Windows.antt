-- ===== src/Deployment/Windows.antt =====
-- deployment/public-demo-http.ts, WindowLimit: what one limit counts in one minute.
use cost_engine_orchestratio.Base.{
  ℕ, ◌+◌, ◌≤◌, ◌<◌, String, Bool, true, false, ◌≡◌, refl, ap, ◌∙◌, some, if◌then◌else◌, ◌==◌,
  nat_eq, string_eq, ltb→lt, inl, inr, ◌⊎◌, subst, eq_of_==, Bool-cases, ==-refl, arith,
}
use cost_engine_orchestratio.DemoSession.Maps.{get_key, get_key-set_key}
use cost_engine_orchestratio.Deployment.PublicHttp.{
  WindowLimit, is_window, or_zero, count_of, enter_window, has_room, available, consume,
}

-- the requests of a key that count in a window
unfoldable pub in_window : String → ℕ → WindowLimit → ℕ
in_window key w l = if is_window l.window w then count_of key l else 0

-- A limit after a request: what the request adds is counted, and within the maximum.
pub record Counted (w : ℕ) (key : String) (hit : ℕ) (l next : WindowLimit) : Type 0 where
  pub maximum_kept : next.maximum ≡ l.maximum
  pub hit_counted : hit + in_window key w l ≤ in_window key w next
  pub within : 1 ≤ hit → in_window key w next ≤ l.maximum

pub Counted-same : (w : ℕ) (key : String) (l : WindowLimit) → Counted w key 0 l l
Counted-same w key l = record {
  maximum_kept = refl;
  hit_counted = omega arith;
  within = λ h. absurd (omega arith);
}

is_window-same : (w : ℕ) → is_window (some w) w ≡ true
is_window-same w = ==-refl w

entered_window : (w : ℕ) (l : WindowLimit) → is_window (enter_window w l).window w ≡ true
entered_window w l = elim (Bool-cases (is_window l.window w)) [
  | inl e ↦ rw (e, e) refl
  | inr e ↦ rw e (is_window-same w)
]

in_window-enter_window :
    (w : ℕ) (key : String) (l : WindowLimit) → count_of key (enter_window w l) ≡ in_window key w l
unfolding in_window count_of get_key
in_window-enter_window w key l = elim (Bool-cases (is_window l.window w)) [
  | inl e ↦ rw e refl
  | inr e ↦ rw e refl
]

entered_maximum : (w : ℕ) (l : WindowLimit) → (enter_window w l).maximum ≡ l.maximum
entered_maximum w l = elim (Bool-cases (is_window l.window w)) [
  | inl e ↦ rw e refl
  | inr e ↦ rw e refl
]

pub Counted-asked :
    (w : ℕ) (key k : String) (l : WindowLimit) → Counted w key 0 l (available k w l).1
unfolding available in_window
Counted-asked w key k l = record {
  maximum_kept = entered_maximum w l;
  hit_counted = rw (entered_window w l) (omega (arith, in_window-enter_window w key l));
  within = λ h. absurd (omega arith);
}

count_of-consume :
    (key k : String) (l : WindowLimit)
    → count_of key (consume k l) ≡ (if k == key then count_of k l + 1 else count_of key l)
unfolding count_of consume
count_of-consume key k l =
    ap or_zero (get_key-set_key key k (or_zero (get_key k l.counts) + 1) l.counts)
    ∙ by_key (k == key)
  where
    by_key :
        (b : Bool)
        → or_zero (if b then some (or_zero (get_key k l.counts) + 1) else get_key key l.counts)
          ≡ (if b then or_zero (get_key k l.counts) + 1 else or_zero (get_key key l.counts))
    by_key true = refl
    by_key false = refl

in_window-consume :
    (w : ℕ) (key k : String) (l : WindowLimit)
    → is_window l.window w ≡ true
    → in_window key w (consume k l) ≡ (if k == key then 1 else 0) + count_of key l
unfolding in_window consume
in_window-consume w key k l h = rw h (count_of-consume key k l ∙ by_key (Bool-cases (k == key)))
  where
    by_key :
        (k == key) ≡ true ⊎ (k == key) ≡ false
        → (if k == key then count_of k l + 1 else count_of key l)
          ≡ (if k == key then 1 else 0) + count_of key l
    by_key (inl e) =
        rw e (omega (arith, ap (λ (a : String). count_of a l) (eq_of_== {a = k} {b = key} e)))
    by_key (inr e) = rw e (omega arith)

has_room-below :
    (key : String) (l : WindowLimit) → has_room key l ≡ true → count_of key l < l.maximum
has_room-below key l h = ground (arith, ltb→lt (count_of key l) l.maximum)

pub Counted-charged :
    (w : ℕ) (key k : String) (l : WindowLimit)
    → (available k w l).0 ≡ true
    → Counted w key (if k == key then 1 else 0) l (consume k (available k w l).1)
unfolding available consume
Counted-charged w key k l ok = record {
  maximum_kept = kept;
  hit_counted = omega (arith, counted, entered);
  within = below (Bool-cases (k == key));
}
  where
    kept : (consume k (enter_window w l)).maximum ≡ l.maximum
    kept = entered_maximum w l

    counted :
        in_window key w (consume k (enter_window w l))
        ≡ (if k == key then 1 else 0) + count_of key (enter_window w l)
    counted = in_window-consume w key k (enter_window w l) (entered_window w l)

    entered : count_of key (enter_window w l) ≡ in_window key w l
    entered = in_window-enter_window w key l

    room : count_of k (enter_window w l) < (enter_window w l).maximum
    room = has_room-below k (enter_window w l) ok

    below :
        (k == key) ≡ true ⊎ (k == key) ≡ false
        → 1 ≤ (if k == key then 1 else 0)
        → in_window key w (consume k (enter_window w l)) ≤ l.maximum
    below (inl e) h =
        let room' =
          subst (λ (a : String). count_of a (enter_window w l) < (enter_window w l).maximum)
            (eq_of_== {a = k} {b = key} e) room in
        let counted' : in_window key w (consume k (enter_window w l))
            ≡ 1 + count_of key (enter_window w l) =
          rw e at counted in
        omega (arith, counted', room', entered_maximum w l)
    below (inr e) h = ground (arith, e, h)
