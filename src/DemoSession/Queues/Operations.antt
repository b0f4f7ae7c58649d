-- ===== src/DemoSession/Queues/Operations.antt =====
-- The list of live operations of the coordinator: tickets ascend, and the admission, the start and the
-- end of an operation change the list in one place.
use cost_engine_orchestratio.Base.{
  ℕ, ◌+◌, ◌<◌, Bool, true, false, ◌≡◌, ◌≢◌, refl, sym, ap, subst, ◌∙◌, List, [], ◌∷◌, ◌++◌, map,
  Memᴰ, inl, inr, if◌then◌else◌, ◌==◌, nat_eq, ==-refl, eq_of_==, Bool-cases, select, count_rows,
  update_rows, arith,
}
use cost_engine_orchestratio.Base.Rows.{
  mem-append_cases, mem-cons_cases, mem-single, mem-update_rows, mem-select, select-mem,
}
use cost_engine_orchestratio.DemoSession.Coordinator.{Operation, remove_operation, delete_member}

abbrev pub IsAscending : List Operation → Type 0
IsAscending [] = Unit {0}
IsAscending (o ∷ os) = ((x : Operation) → Memᴰ x os → o.ticket < x.ticket) × IsAscending os

abbrev pub tickets_of : (Operation → Bool) → List Operation → List ℕ
tickets_of p os = map (λ (o : Operation). o.ticket) (select p os)

pub ne_of_== : {a b : ℕ} → (a == b) ≡ false → a ≢ b
ne_of_== {a} {b} h e = ground (arith, subst (λ k. (a == k) ≡ true) e (==-refl a))

-- A ticket names one live operation.
pub ticket_unique :
    (os : List Operation) {a b : Operation}
    → IsAscending os
    → Memᴰ a os
    → Memᴰ b os
    → a.ticket ≡ b.ticket
    → a ≡ b
ticket_unique [] h m n g = elim m [ ]
ticket_unique (o ∷ os) h (Memᴰ.head e) (Memᴰ.head f) g = e ∙ sym f
ticket_unique (o ∷ os) {b = b} h (Memᴰ.head e) (Memᴰ.tail n) g =
    absurd (omega (arith, h.0 b n, ap (λ (x : Operation). x.ticket) e))
ticket_unique (o ∷ os) {a} h (Memᴰ.tail m) (Memᴰ.head f) g =
    absurd (omega (arith, h.0 a m, ap (λ (x : Operation). x.ticket) f))
ticket_unique (o ∷ os) h (Memᴰ.tail m) (Memᴰ.tail n) g = ticket_unique os h.1 m n g

pub remove_operation-mem :
    (t : ℕ) (os : List Operation) {x : Operation} → Memᴰ x (remove_operation t os) → Memᴰ x os
unfolding remove_operation
remove_operation-mem t [] m = m
remove_operation-mem t (o ∷ os) {x} m = elim (Bool-cases (o.ticket == t)) [
  | inl hit ↦
      Memᴰ.tail (subst (λ (b : Bool). Memᴰ x (if b then os else o ∷ remove_operation t os)) hit m)
  | inr miss ↦
      elim (mem-cons_cases
        (subst (λ (b : Bool). Memᴰ x (if b then os else o ∷ remove_operation t os)) miss m)) [
          | inl e ↦ Memᴰ.head e
          | inr n ↦ Memᴰ.tail (remove_operation-mem t os n)
        ]
]

pub mem-remove_operation :
    (t : ℕ) (os : List Operation) {x : Operation}
    → Memᴰ x os
    → x.ticket ≢ t
    → Memᴰ x (remove_operation t os)
unfolding remove_operation
mem-remove_operation t [] m h = m
mem-remove_operation t (o ∷ os) {x} (Memᴰ.head e) h = elim (Bool-cases (o.ticket == t)) [
  | inl hit ↦ absurd (h (ap (λ (y : Operation). y.ticket) e ∙ eq_of_== hit))
  | inr miss ↦ rw miss (Memᴰ.head e)
]
mem-remove_operation t (o ∷ os) (Memᴰ.tail m) h = elim (Bool-cases (o.ticket == t)) [
  | inl hit ↦ rw hit m
  | inr miss ↦ rw miss (Memᴰ.tail (mem-remove_operation t os m h))
]

-- The removed ticket is not live any more.
pub remove_operation-ne :
    (t : ℕ) (os : List Operation) {x : Operation}
    → IsAscending os
    → Memᴰ x (remove_operation t os)
    → x.ticket ≢ t
unfolding remove_operation
remove_operation-ne t [] h m = elim m [ ]
remove_operation-ne t (o ∷ os) {x} h m = elim (Bool-cases (o.ticket == t)) [
  | inl hit ↦
      let m' = subst (λ (b : Bool). Memᴰ x (if b then os else o ∷ remove_operation t os)) hit m in
      let e' : o.ticket ≡ t = eq_of_== hit in λ e. omega (arith, h.0 x m', e')
  | inr miss ↦
      elim (mem-cons_cases
        (subst (λ (b : Bool). Memᴰ x (if b then os else o ∷ remove_operation t os)) miss m)) [
          | inl e ↦ λ f. ne_of_== miss (sym (ap (λ (y : Operation). y.ticket) e) ∙ f)
          | inr n ↦ remove_operation-ne t os h.1 n
        ]
]

pub remove_operation-IsAscending :
    (t : ℕ) (os : List Operation) → IsAscending os → IsAscending (remove_operation t os)
unfolding remove_operation
remove_operation-IsAscending t [] h = h
remove_operation-IsAscending t (o ∷ os) h = elim (Bool-cases (o.ticket == t)) [
  | inl hit ↦ rw hit h.1
  | inr miss ↦
      rw miss (λ x m. h.0 x (remove_operation-mem t os m), remove_operation-IsAscending t os h.1)
]

-- A removal of a live operation lowers the count of the rows that it is one of.
pub count_rows-remove_operation :
    (p : Operation → Bool) (os : List Operation) {o : Operation}
    → IsAscending os
    → Memᴰ o os
    → count_rows p os ≡ (if p o then 1 else 0) + count_rows p (remove_operation o.ticket os)
unfolding remove_operation count_rows
count_rows-remove_operation p [] h m = elim m [ ]
count_rows-remove_operation p (y ∷ os) {o} h (Memᴰ.head e) = rw (e, ==-refl y.ticket) (ground arith)
count_rows-remove_operation p (y ∷ os) {o} h (Memᴰ.tail m) =
    elim (Bool-cases (y.ticket == o.ticket)) [
      | inl hit ↦ let e : y.ticket ≡ o.ticket = eq_of_== hit in absurd (omega (arith, h.0 o m))
      | inr miss ↦ rw miss (ground (arith, count_rows-remove_operation p os h.1 m))
    ]

pub tickets_of-remove_operation :
    (p : Operation → Bool) (os : List Operation) {o : Operation}
    → IsAscending os
    → Memᴰ o os
    → tickets_of p (remove_operation o.ticket os)
      ≡ (if p o then delete_member o.ticket (tickets_of p os) else tickets_of p os)
unfolding remove_operation delete_member select
tickets_of-remove_operation p [] h m = elim m [ ]
tickets_of-remove_operation p (y ∷ os) {o} h (Memᴰ.head e) =
    rw (e, ==-refl y.ticket)
      elim (Bool-cases (p y)) [
        | inl hit ↦ rw (hit, ==-refl y.ticket) refl
        | inr miss ↦ rw miss refl
      ]
tickets_of-remove_operation p (y ∷ os) {o} h (Memᴰ.tail m) =
    elim (Bool-cases (y.ticket == o.ticket)) [
      | inl hit ↦ let e : y.ticket ≡ o.ticket = eq_of_== hit in absurd (omega (arith, h.0 o m))
      | inr miss ↦ rw miss (ground (arith, miss, tickets_of-remove_operation p os h.1 m))
    ]

pub count_rows-absent :
    (p : Operation → Bool) (os : List Operation)
    → ((x : Operation) → Memᴰ x os → p x ≡ false)
    → count_rows p os ≡ 0
unfolding count_rows
count_rows-absent p [] h = refl
count_rows-absent p (o ∷ os) h =
    rw (h o (Memᴰ.head refl)) (count_rows-absent p os (λ x m. h x (Memᴰ.tail m)))

pub tickets_of-absent :
    (p : Operation → Bool) (os : List Operation)
    → ((x : Operation) → Memᴰ x os → p x ≡ false)
    → tickets_of p os ≡ []
unfolding select
tickets_of-absent p [] h = refl
tickets_of-absent p (o ∷ os) h =
    rw (h o (Memᴰ.head refl)) (tickets_of-absent p os (λ x m. h x (Memᴰ.tail m)))

pub mem-map :
    (os : List Operation) {x : Operation}
    → Memᴰ x os
    → Memᴰ x.ticket (map (λ (o : Operation). o.ticket) os)
mem-map [] m = elim m [ ]
mem-map (o ∷ os) (Memᴰ.head e) = Memᴰ.head (ap (λ (y : Operation). y.ticket) e)
mem-map (o ∷ os) (Memᴰ.tail m) = Memᴰ.tail (mem-map os m)

map-mem :
    (os : List Operation) {t : ℕ}
    → Memᴰ t (map (λ (o : Operation). o.ticket) os)
    → (x : Operation) × Memᴰ x os × (t ≡ x.ticket)
map-mem [] m = elim m [ ]
map-mem (o ∷ os) (Memᴰ.head e) = (o, Memᴰ.head refl, e)
map-mem (o ∷ os) (Memᴰ.tail m) = let (x, n, e) = map-mem os m in (x, Memᴰ.tail n, e)

pub mem-tickets_of :
    (p : Operation → Bool) (os : List Operation) {x : Operation}
    → Memᴰ x os
    → p x ≡ true
    → Memᴰ x.ticket (tickets_of p os)
mem-tickets_of p os m h = mem-map (select p os) (mem-select p os m h)

pub tickets_of-mem :
    (p : Operation → Bool) (os : List Operation) {t : ℕ}
    → Memᴰ t (tickets_of p os)
    → (x : Operation) × Memᴰ x os × (t ≡ x.ticket)
tickets_of-mem p os m = let (x, n, e) = map-mem (select p os) m in (x, (select-mem p os n).0, e)

-- A live operation is counted.
pub mem-count_rows :
    (p : Operation → Bool) (os : List Operation) {x : Operation}
    → Memᴰ x os
    → p x ≡ true
    → 0 < count_rows p os
unfolding count_rows
mem-count_rows p [] m h = elim m [ ]
mem-count_rows p (y ∷ os) (Memᴰ.head e) h = ground (arith, ap p e)
mem-count_rows p (y ∷ os) (Memᴰ.tail m) h = ground (arith, mem-count_rows p os m h)

-- A change of an operation's phase keeps its ticket and its queue.
module _ (cond : Operation → Bool) (set : Operation → Operation)
    (same : (x : Operation) → (set x).ticket ≡ x.ticket) where
  ticket-image : (x : Operation) → (if cond x then set x else x).ticket ≡ x.ticket
  ticket-image x = ground (arith, same x)

  pub update_rows-IsAscending :
      (os : List Operation) → IsAscending os → IsAscending (update_rows cond set os)
  unfolding update_rows
  update_rows-IsAscending [] h = h
  update_rows-IsAscending (o ∷ os) h = (
    λ x m.
        let (y, n, e) = mem-update_rows cond set os m in
        let e' = ap (λ (z : Operation). z.ticket) e in
        omega (arith, h.0 y n, e', ticket-image y, ticket-image o),
    update_rows-IsAscending os h.1,
  )

  module _ (p : Operation → Bool) (keeps : (x : Operation) → p (set x) ≡ p x) where
    p-image : (x : Operation) → p (if cond x then set x else x) ≡ p x
    p-image x = elim (Bool-cases (cond x)) [ inl e ↦ rw e (keeps x) | inr e ↦ rw e refl ]

    pub count_rows-update_rows :
        (os : List Operation) → count_rows p (update_rows cond set os) ≡ count_rows p os
    unfolding count_rows update_rows
    count_rows-update_rows [] = refl
    count_rows-update_rows (o ∷ os) = rw (p-image o, count_rows-update_rows os)

    pub tickets_of-update_rows :
        (os : List Operation) → tickets_of p (update_rows cond set os) ≡ tickets_of p os
    unfolding select update_rows
    tickets_of-update_rows [] = refl
    tickets_of-update_rows (o ∷ os) = elim (Bool-cases (p o)) [
      | inl hit ↦ rw (p-image o, hit, tickets_of-update_rows os, ticket-image o)
      | inr miss ↦ rw (p-image o, miss, tickets_of-update_rows os)
    ]

module _ (p : Operation → Bool) where
  pub count_rows-append :
      (os : List Operation) (a : Operation)
      → count_rows p (os ++ a ∷ []) ≡ count_rows p os + (if p a then 1 else 0)
  unfolding count_rows
  count_rows-append [] a = ground arith
  count_rows-append (o ∷ os) a = ground (arith, count_rows-append os a)

  pub tickets_of-append :
      (os : List Operation) (a : Operation)
      → tickets_of p (os ++ a ∷ [])
        ≡ (if p a then tickets_of p os ++ a.ticket ∷ [] else tickets_of p os)
  unfolding select
  tickets_of-append [] a = ground arith
  tickets_of-append (o ∷ os) a = ground (arith, tickets_of-append os a)

pub append-IsAscending :
    (os : List Operation) (a : Operation)
    → IsAscending os
    → ((x : Operation) → Memᴰ x os → x.ticket < a.ticket)
    → IsAscending (os ++ a ∷ [])
append-IsAscending [] a h below = ((λ x m. elim m [ ]), tt)
append-IsAscending (o ∷ os) a h below = (
  λ x m. elim (mem-append_cases os m) [
    | inl n ↦ h.0 x n
    | inr n ↦
        let e = ap (λ (y : Operation). y.ticket) (mem-single n) in
        omega (arith, below o (Memᴰ.head refl), e)
  ],
  append-IsAscending os a h.1 (λ x m. below x (Memᴰ.tail m)),
)
