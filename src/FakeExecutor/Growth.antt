-- ===== src/FakeExecutor/Growth.antt =====
-- executors/fake-executor.ts: the runs and rejections that an executor has, and changes of them.
use cost_engine_orchestratio.Base.{
  String, ◌≡◌, refl, sym, subst, ◌∙◌, ◌⊎◌, inl, inr, Bool, true, false, ◌||◌, List, [], ◌∷◌, ◌++◌,
  if◌then◌else◌, Bool-cases, ◌==◌, nat_eq, string_eq, option_eq, eq_of_==,
}
use cost_engine_orchestratio.Base.Rows.{mem-append_cases, mem-single, any_row-mem, mem-any_row}
use cost_engine_orchestratio.Store.Status.{
  dataset_status_eq, job_status_eq, attempt_status_eq, definition_status_eq,
}
use cost_engine_orchestratio.FakeExecutor.Maps.{map_get, map_set, has_member, add_member, has_key}
use cost_engine_orchestratio.FakeExecutor.State.{ExternalExecution, FakeExecutor}
use cost_engine_orchestratio.Base.Rows.{any_row-append}

or_true : (b : Bool) → (b || true) ≡ true
or_true true = refl
or_true false = refl

has_key-map_set :
    {V : Type 0} (k j : String) (v : V) (m : List (String × V))
    → has_key (map_get k (map_set j v m)) ≡ (j == k || has_key (map_get k m))
unfolding map_get map_set
has_key-map_set k j v [] = elim (Bool-cases (j == k)) [
  | inl hit ↦ rw hit refl
  | inr miss ↦ rw miss refl
]
has_key-map_set k j v ((i, w) ∷ m) = elim (Bool-cases (i == j)) [
  | inl hit ↦
      let e : i ≡ j = eq_of_== hit in
      elim (Bool-cases (j == k)) [ inl q ↦ rw (hit, q) refl | inr q ↦ rw (hit, e, q) refl ]
  | inr miss ↦ elim (Bool-cases (i == k)) [
    | inl q ↦ rw (miss, q) (sym (or_true (j == k)))
    | inr q ↦ rw (miss, q) (has_key-map_set k j v m)
  ]
]

member-add :
    (k j : String) (l : List String)
    → has_member k (add_member j l) ≡ true
    → (j ≡ k) ⊎ (has_member k l ≡ true)
member-add k j l h = elim (Bool-cases (has_member j l)) [
  | inl there ↦
      inr (subst (λ (b : Bool). has_member k (if b then l else l ++ j ∷ []) ≡ true) there h)
  | inr new ↦
      let h' = subst (λ (b : Bool). has_member k (if b then l else l ++ j ∷ []) ≡ true) new h in
      let (x, m, e) = any_row-mem (λ i. i == k) (l ++ j ∷ []) h' in
      elim (mem-append_cases l m) [
        | inl old ↦ inr (mem-any_row (λ i. i == k) l old e)
        | inr last ↦ inl (sym (mem-single last) ∙ eq_of_== e)
      ]
]

member-stays :
    (k j : String) (l : List String) → has_member k l ≡ true → has_member k (add_member j l) ≡ true
member-stays k j l h = elim (Bool-cases (has_member j l)) [
  | inl there ↦ rw there h
  | inr new ↦ rw new (any_row-append (λ i. i == k) l j h)
]

-- A run exists for the key; the key was rejected.
abbrev pub Created : String → FakeExecutor → Type 0
Created key f = has_key (map_get key f.external_executions) ≡ true

abbrev pub Rejected : String → FakeExecutor → Type 0
Rejected key f = has_member key f.rejected_identities ≡ true

-- No rejected key has a run.
abbrev pub Exclusive : FakeExecutor → Type 0
Exclusive f = (key : String) → Rejected key f → has_key (map_get key f.external_executions) ≡ false

-- What `g` has beside what `f` has.
pub record Grows (f g : FakeExecutor) : Type 0 where
  pub created_stays : (key : String) → Created key f → Created key g
  pub rejected_stays : (key : String) → Rejected key f → Rejected key g
  pub exclusive : Exclusive f → Exclusive g

pub Grows-same :
    {f g : FakeExecutor}
    → g.external_executions ≡ f.external_executions
    → g.rejected_identities ≡ f.rejected_identities
    → Grows f g
Grows-same ee er = record {
  created_stays = λ key h. rw ee h;
  rejected_stays = λ key h. rw er h;
  exclusive = λ x key h. rw ee (x key (rw (sym er) h));
}

-- a run is made for a key that was not rejected
pub Grows-created :
    {f g : FakeExecutor} (key : String) (e : ExternalExecution)
    → has_member key f.rejected_identities ≡ false
    → g.external_executions ≡ map_set key e f.external_executions
    → g.rejected_identities ≡ f.rejected_identities
    → Grows f g
Grows-created {f} key e free ee er = record {
  created_stays =
      λ k h. rw (ee, has_key-map_set k key e f.external_executions, h) (or_true (key == k));
  rejected_stays = λ k h. rw er h;
  exclusive = λ x k h.
      let r : Rejected k f = rw (sym er) h in
      rw (ee, has_key-map_set k key e f.external_executions, x k r)
        (elim (Bool-cases (key == k)) [
          | inr miss ↦ rw miss refl
          | inl hit ↦
              let r' =
                subst (λ (i : String). has_member i f.rejected_identities ≡ true)
                  (sym (eq_of_== hit)) r in
              cc
        ]);
}

-- a run that is there changes its state
pub Grows-updated :
    {f g : FakeExecutor} (key : String) (e : ExternalExecution)
    → Created key f
    → g.external_executions ≡ map_set key e f.external_executions
    → g.rejected_identities ≡ f.rejected_identities
    → Grows f g
Grows-updated {f} key e there ee er = record {
  created_stays =
      λ k h. rw (ee, has_key-map_set k key e f.external_executions, h) (or_true (key == k));
  rejected_stays = λ k h. rw er h;
  exclusive = λ x k h.
      let r : Rejected k f = rw (sym er) h in
      rw (ee, has_key-map_set k key e f.external_executions, x k r)
        (elim (Bool-cases (key == k)) [
          | inr miss ↦ rw miss refl
          | inl hit ↦
              let no =
                subst (λ (i : String). has_key (map_get i f.external_executions) ≡ false)
                  (sym (eq_of_== hit)) (x k r) in
              cc
        ]);
}

-- a key without a run is rejected
pub Grows-rejected :
    {f g : FakeExecutor} (key : String)
    → has_key (map_get key f.external_executions) ≡ false
    → g.external_executions ≡ f.external_executions
    → g.rejected_identities ≡ add_member key f.rejected_identities
    → Grows f g
Grows-rejected {f} key none_there ee er = record {
  created_stays = λ k h. rw ee h;
  rejected_stays = λ k h. rw er (member-stays k key f.rejected_identities h);
  exclusive = λ x k h.
      rw ee
        (elim (member-add k key f.rejected_identities
          (subst (λ (l : List String). has_member k l ≡ true) er h)) [
            | inl e ↦
                subst (λ (i : String). has_key (map_get i f.external_executions) ≡ false) e
                  none_there
            | inr old ↦ x k old
          ]);
}

pub Grows-trans : {f g h : FakeExecutor} → Grows f g → Grows g h → Grows f h
Grows-trans p q = record {
  created_stays = λ k c. q.created_stays k (p.created_stays k c);
  rejected_stays = λ k c. q.rejected_stays k (p.rejected_stays k c);
  exclusive = λ x. q.exclusive (p.exclusive x);
}
