-- ===== src/Dispatch/Routing.antt =====
-- modules/calculation-job-run.service.ts: what ends the rounds of a run, and which frozen dependencies
-- a dispatch is given.
use cost_engine_orchestratio.Base.{
  ℕ, zero, suc, String, ◌≡◌, refl, sym, ap, subst, Option, select, inl, inr, Bool, true, false,
  some, List, [], ◌∷◌, map, Memᴰ, arith, if◌then◌else◌, Bool-cases, ◌==◌, nat_eq, string_eq,
  option_eq, eq_of_==,
}
use cost_engine_orchestratio.Errors.{Error, attempt_routing_race}
use cost_engine_orchestratio.Exec.{Result, ok, err, Exec, throw, try_catch}
use cost_engine_orchestratio.Exec.Commits.{Commits, pure-Commits, bind-Commits, or_throw-Commits}
use cost_engine_orchestratio.Store.Status.{
  dataset_status_eq, job_status_eq, attempt_status_eq, definition_status_eq,
}
use cost_engine_orchestratio.Store.Transaction.{Env}
use cost_engine_orchestratio.Dispatch.Types.{FrozenDependency, RunResult}
use cost_engine_orchestratio.Dispatch.Service.{select_relevant_frozen_dependencies}
use cost_engine_orchestratio.Exec.{catch_result}
use cost_engine_orchestratio.Base.Rows.{select-mem}
use cost_engine_orchestratio.Dispatch.Service.{only_dependency}
use cost_engine_orchestratio.Errors.{attempt_routing_race}
use cost_engine_orchestratio.Dispatch.Run.{Executor, is_retried, run_round, run_rounds}

abbrev pub is_race : Error → Bool
is_race attempt_routing_race = true
is_race _ = false

-- The outcome is not the error that a lost race is reported with inside the service.
abbrev pub NoRace : {X : Type 0} → Result RunResult × X → Type 0
NoRace (ok r, _) = Unit
NoRace (err e, _) = is_race e ≡ false

retried_race : (left : ℕ) (e : Error) → is_retried left e ≡ false → is_race e ≡ false
retried_race left e h = ground arith

module _ {X : Type 0} (executor : Executor X) where
  caught-NoRace :
      (left : ℕ) (again : Exec (Env × X) RunResult)
      → ((p : Env × X) → NoRace (again p))
      → (r : Result RunResult × (Env × X))
      → NoRace
          (let (v, t) = r in catch_result (λ e. if is_retried left e then again else throw e) v t)
  unfolding throw
  caught-NoRace left again k (ok a, t) = tt
  caught-NoRace left again k (err e, t) = elim (Bool-cases (is_retried left e)) [
    | inl again_now ↦ rw again_now (k t)
    | inr over ↦ rw over (retried_race left e over)
  ]

  -- Within its rounds a run answers a result or an error, and never the error of a lost race.
  pub run_rounds-NoRace :
      (left : ℕ) (job_id : String) (p : Env × X) → NoRace (run_rounds executor left job_id p)
  unfolding run_rounds try_catch throw
  run_rounds-NoRace zero job_id p = refl
  run_rounds-NoRace (suc left) job_id p =
      caught-NoRace left (run_rounds executor left job_id) (run_rounds-NoRace left job_id)
        (run_round executor job_id p)

only_dependency-eq :
    (l : List FrozenDependency) {d : FrozenDependency} → only_dependency l ≡ some d → l ≡ d ∷ []
only_dependency-eq [] h = cc
only_dependency-eq (x ∷ []) h = ap (λ (y : FrozenDependency). y ∷ []) (some_dependency h)
  where
    some_dependency :
        {a b : FrozenDependency} → ◌≡◌ {A = Option FrozenDependency} (some a) (some b) → a ≡ b
    some_dependency e = cc
only_dependency-eq (x ∷ y ∷ l) h = cc

-- The dependency is frozen, and is the only frozen one of its domain.
abbrev pub IsOnly : List FrozenDependency → FrozenDependency → Type 0
IsOnly frozen d = Memᴰ d frozen × (select (λ x. x.domain == d.domain) frozen ≡ d ∷ [])

IsOnly-here :
    (domain : String) (frozen : List FrozenDependency) (d : FrozenDependency)
    → select (λ x. x.domain == domain) frozen ≡ d ∷ []
    → (d.domain ≡ domain) × IsOnly frozen d
IsOnly-here domain frozen d e =
    let (m, h) =
      select-mem (λ x. x.domain == domain) frozen (subst (Memᴰ d) (sym e) (Memᴰ.head refl)) in
    let here : d.domain ≡ domain = eq_of_== h in
    (here, (m, subst (λ (k : String). select (λ x. x.domain == k) frozen ≡ d ∷ []) (sym here) e))

-- Selecting dependencies for the required domains gives, whenever it returns, one for each domain, in
-- the order of the domains; each is a frozen dependency and the only frozen one of its domain; and it
-- changes nothing.
pub select_relevant-domains :
    (domains : List String) (frozen : List FrozenDependency) (s : Env)
    → Commits
        (λ found t.
          (map (λ d. d.domain) found ≡ domains)
          × ((d : FrozenDependency) → Memᴰ d found → IsOnly frozen d)
          × (t ≡ s))
        (select_relevant_frozen_dependencies domains frozen)
        s
unfolding select_relevant_frozen_dependencies
select_relevant-domains [] frozen s = pure-Commits _ (refl, λ d m. elim m [ ], refl)
select_relevant-domains (domain ∷ domains) frozen s = or_throw-Commits _ _ λ d only.
    let (here, is_only) = IsOnly-here domain frozen d (only_dependency-eq _ only) in
    bind-Commits _ _ (select_relevant-domains domains frozen s) λ rest t (e, each, same).
      pure-Commits _ (cons_eq d rest here e, of_cons d rest is_only each, same)
  where
    cons_eq :
        (d : FrozenDependency) (rest : List FrozenDependency)
        → d.domain ≡ domain
        → map (λ x. x.domain) rest ≡ domains
        → map (λ x. x.domain) (d ∷ rest) ≡ domain ∷ domains
    cons_eq d rest here e = rw (here, e) refl

    of_cons :
        (d : FrozenDependency) (rest : List FrozenDependency)
        → IsOnly frozen d
        → ((x : FrozenDependency) → Memᴰ x rest → IsOnly frozen x)
        → (x : FrozenDependency) → Memᴰ x (d ∷ rest)
        → IsOnly frozen x
    of_cons d rest h each x (Memᴰ.head e) = subst (IsOnly frozen) (sym e) h
    of_cons d rest h each x (Memᴰ.tail m) = each x m
