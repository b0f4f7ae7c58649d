-- ===== src/Deployment/RateLimits.antt =====
-- deployment/public-demo-http.ts: what the limits let through in one minute.
use cost_engine_orchestratio.Base.{
  ℕ, suc, ◌+◌, ◌-◌, ◌≤◌, String, Bool, true, false, not, ◌&&◌, ◌≡◌, refl, Option, none, some, List,
  [], ◌∷◌, if◌then◌else◌, ◌==◌, nat_eq, string_eq, subst, eq_of_==, and-true, zero, all_rows, arith,
}
use cost_engine_orchestratio.Deployment.PublicHttp.{
  WindowLimit, available, consume, PublicDemoConfig, Limits, Request, Reply, passed, replied,
  is_post, is_creation, proxy_address, rate_limit, reply_post, admit_creation, admit_mutation,
  admit_global, charge, on_request, proxied, is_health, is_cross_site, health_reply, path_of,
}
use cost_engine_orchestratio.Deployment.Windows.{
  in_window, Counted, Counted-same, Counted-asked, Counted-charged,
}

abbrev pub pass_count : Reply → ℕ
pass_count passed = 1
pass_count (replied n) = 0

-- What a limited request adds to the three limits.
record Charged (w : ℕ) (creation : Bool) (address : String) (key : String) (reply : Reply)
    (l next : Limits) : Type 0 where
  creates :
      Counted w key
        (if creation && (address == key) then pass_count reply else 0)
        l.creates
        next.creates
  mutations :
      Counted w key (if address == key then pass_count reply else 0) l.mutations next.mutations
  global : Counted w "all" (pass_count reply) l.global next.global

Counted-none :
    (b : Bool) {w : ℕ} {key : String} {l next : WindowLimit}
    → Counted w key 0 l next
    → Counted w key (if b then 0 else 0) l next
Counted-none true h = h
Counted-none false h = h

refused :
    (w n : ℕ) (creation : Bool) (address key : String) (l next : Limits)
    → Counted w key 0 l.creates next.creates
    → Counted w key 0 l.mutations next.mutations
    → Counted w "all" 0 l.global next.global
    → Charged w creation address key (replied n) l next
refused w n creation address key l next c m g = record {
  creates = Counted-none (creation && (address == key)) c;
  mutations = Counted-none (address == key) m;
  global = g;
}

admit_global-Charged :
    (w : ℕ) (creation : Bool) (address key : String) (l : Limits) (c m : WindowLimit)
    → Counted w key 0 l.creates c
    → Counted w key
        (if creation && (address == key) then 1 else 0)
        l.creates
        (if creation then consume address c else c)
    → Counted w key 0 l.mutations m
    → Counted w key (if address == key then 1 else 0) l.mutations (consume address m)
    → (b : Bool) → (available "all" w l.global).0 ≡ b
    → (let a =
          reply_post creation address
            (b, record { creates = c; mutations = m; global = (available "all" w l.global).1 }) in
        Charged w creation address key a.0 l a.1)
unfolding charge
admit_global-Charged w creation address key l c m c0 c1 m0 m1 true e = record {
  creates = c1;
  mutations = m1;
  global = Counted-charged w "all" "all" l.global e;
}
admit_global-Charged w creation address key l c m c0 c1 m0 m1 false e =
    refused w 429 creation address key l _ c0 m0 (Counted-asked w "all" "all" l.global)

admit_mutation-Charged :
    (w : ℕ) (creation : Bool) (address key : String) (l : Limits) (c : WindowLimit)
    → Counted w key 0 l.creates c
    → Counted w key
        (if creation && (address == key) then 1 else 0)
        l.creates
        (if creation then consume address c else c)
    → (b : Bool) → (available address w l.mutations).0 ≡ b
    → (let a = reply_post creation address (
          admit_global w
            (b, record l { creates = c; mutations = (available address w l.mutations).1 })) in
        Charged w creation address key a.0 l a.1)
unfolding admit_global
admit_mutation-Charged w creation address key l c c0 c1 true e =
    admit_global-Charged w creation address key l c (available address w l.mutations).1 c0 c1
      (Counted-asked w key address l.mutations) (Counted-charged w key address l.mutations e)
      (available "all" w l.global).0 refl
admit_mutation-Charged w creation address key l c c0 c1 false e =
    refused w 429 creation address key l _ c0 (Counted-asked w key address l.mutations)
      (Counted-same w "all" l.global)

admit_creation-Charged :
    (w : ℕ) (address key : String) (l : Limits) (b : Bool)
    → (available address w l.creates).0 ≡ b
    → (let a = reply_post true address (
          admit_global w (
            admit_mutation address w
              (b, record l { creates = (available address w l.creates).1 }))) in
        Charged w true address key a.0 l a.1)
unfolding admit_mutation admit_global
admit_creation-Charged w address key l true e =
    admit_mutation-Charged w true address key l (available address w l.creates).1
      (Counted-asked w key address l.creates) (Counted-charged w key address l.creates e)
      (available address w l.mutations).0 refl
admit_creation-Charged w address key l false e =
    refused w 429 true address key l _ (Counted-asked w key address l.creates)
      (Counted-same w key l.mutations) (Counted-same w "all" l.global)

rate_limit-Charged :
    (w : ℕ) (creation : Bool) (address key : String) (l : Limits)
    → Charged w creation address key
        (rate_limit creation address w l).0
        l
        (rate_limit creation address w l).1
unfolding rate_limit admit_creation admit_mutation
rate_limit-Charged w true address key l =
    admit_creation-Charged w address key l (available address w l.creates).0 refl
rate_limit-Charged w false address key l =
    admit_mutation-Charged w false address key l l.creates (Counted-same w key l.creates)
      (Counted-same w key l.creates) (available address w l.mutations).0 refl

-- The same of a request that is limited only when it is a POST outside the health paths.
record Step (w : ℕ) (limited creation from_key : Bool) (key : String) (reply : Reply)
    (l next : Limits) : Type 0 where
  creates :
      Counted w key
        (if limited && creation && from_key then pass_count reply else 0)
        l.creates
        next.creates
  mutations :
      Counted w key (if limited && from_key then pass_count reply else 0) l.mutations next.mutations
  global : Counted w "all" (if limited then pass_count reply else 0) l.global next.global

Step_kept :
    (w n : ℕ) (limited creation from_key : Bool) (key : String) (l : Limits)
    → Step w limited creation from_key key (replied n) l l
Step_kept w n limited creation from_key key l = record {
  creates = Counted-none (limited && creation && from_key) (Counted-same w key l.creates);
  mutations = Counted-none (limited && from_key) (Counted-same w key l.mutations);
  global = Counted-none limited (Counted-same w "all" l.global);
}

Step_free :
    (w : ℕ) (creation from_key : Bool) (key : String) (reply : Reply) (l : Limits)
    → Step w false creation from_key key reply l l
Step_free w creation from_key key reply l = record {
  creates = Counted-same w key l.creates;
  mutations = Counted-same w key l.mutations;
  global = Counted-same w "all" l.global;
}

proxied-Step :
    (w : ℕ) (cross post creation : Bool) (address key : String) (l : Limits)
    → (let a =
          if cross
          then (replied 403, l)
          else if post
          then rate_limit creation address w l
          else (passed, l) in
        Step w post creation (address == key) key a.0 l a.1)
proxied-Step w true post creation address key l =
    Step_kept w 403 post creation (address == key) key l
proxied-Step w false false creation address key l =
    Step_free w creation (address == key) key passed l
proxied-Step w false true creation address key l =
    let c = rate_limit-Charged w creation address key l in
    record { creates = c.creates; mutations = c.mutations; global = c.global }

abbrev pub is_limited : Request → Bool
is_limited r = not (is_health (path_of r.url)) && is_post r.method

abbrev pub is_address : String → Option String → Bool
is_address key none = false
is_address key (some a) = a == key

abbrev pub is_from : (String → Bool) → PublicDemoConfig → String → Request → Bool
is_from is_ip config key r = is_address key (proxy_address is_ip config r)

on_request-Step :
    (is_ip : String → Bool) (config : PublicDemoConfig) (key : String) (r : Request) (l : Limits)
    → Step r.minute
        (is_limited r)
        (is_creation r)
        (is_from is_ip config key r)
        key
        (on_request is_ip config r l).0
        l
        (on_request is_ip config r l).1
unfolding on_request
on_request-Step is_ip config key r l =
    by_path (is_health (path_of r.url)) (proxy_address is_ip config r)
  where
    by_path :
        (h : Bool) (o : Option String)
        → (let a = if h then (health_reply r, l) else proxied config r l o in
            Step r.minute
              (not h && is_post r.method)
              (is_creation r)
              (is_address key o)
              key
              a.0
              l
              a.1)
    by_path true o = Step_free r.minute (is_creation r) (is_address key o) key (health_reply r) l
    by_path false none = Step_kept r.minute 403 (is_post r.method) (is_creation r) false key l
    by_path false (some address) =
        proxied-Step r.minute (is_cross_site config r) (is_post r.method) (is_creation r) address
          key l

-- the requests with a property that pass the hook, of a sequence that it serves
unfoldable pub count_passed :
    (String → Bool) → PublicDemoConfig → (Request → Bool) → List Request → Limits → ℕ
unfolding on_request
count_passed is_ip config p [] l = 0
count_passed is_ip config p (r ∷ rs) l =
    let (reply, next) = on_request is_ip config r l in
    (if p r then pass_count reply else 0) + count_passed is_ip config p rs next

-- What is served after a request stays below what the maximum leaves.
Counted-then :
    (w n hit : ℕ) (key : String) (l next : WindowLimit)
    → Counted w key hit l next
    → n ≤ next.maximum - in_window key w next
    → hit + n ≤ l.maximum - in_window key w l
Counted-then w n zero key l next c h = omega (arith, c.maximum_kept, c.hit_counted)
Counted-then w n (suc hit) key l next c h =
    omega (arith, c.maximum_kept, c.hit_counted, c.within (omega arith))

-- What the limits let through of a sequence in one minute, beside what they have counted already.
record Bounded (is_ip : String → Bool) (config : PublicDemoConfig) (w : ℕ) (key : String)
    (rs : List Request) (l : Limits) : Type 0 where
  creates :
      count_passed is_ip config
        (λ r. is_limited r && is_creation r && is_from is_ip config key r)
        rs
        l
      ≤ l.creates.maximum - in_window key w l.creates
  mutations :
      count_passed is_ip config (λ r. is_limited r && is_from is_ip config key r) rs l
      ≤ l.mutations.maximum - in_window key w l.mutations
  global : count_passed is_ip config is_limited rs l ≤ l.global.maximum - in_window "all" w l.global

Bounded-all :
    (is_ip : String → Bool) (config : PublicDemoConfig) (w : ℕ) (key : String) (rs : List Request)
    (l : Limits)
    → all_rows (λ r. r.minute == w) rs ≡ true
    → Bounded is_ip config w key rs l
unfolding count_passed all_rows
Bounded-all is_ip config w key [] l h = record {
  creates = omega arith;
  mutations = omega arith;
  global = omega arith;
}
Bounded-all is_ip config w key (r ∷ rs) l h =
    let (same, later) = and-true {a = r.minute == w} h in
    let step =
      subst
        (λ (v : ℕ).
          Step v (is_limited r) (is_creation r) (is_from is_ip config key r) key
            (on_request is_ip config r l).0 l (on_request is_ip config r l).1)
        (eq_of_== {a = r.minute} {b = w} same) (on_request-Step is_ip config key r l) in
    let rest = Bounded-all is_ip config w key rs (on_request is_ip config r l).1 later in
    record {
      creates = Counted-then w _ _ key l.creates _ step.creates rest.creates;
      mutations = Counted-then w _ _ key l.mutations _ step.mutations rest.mutations;
      global = Counted-then w _ _ "all" l.global _ step.global rest.global;
    }

-- Of the requests that come one after another in one minute, the limits in any state let through at most
-- their maximum: of the creations of an address, of the POST requests of an address, and of all POST
-- requests.
pub count_passed-maximum :
    (is_ip : String → Bool) (config : PublicDemoConfig) (w : ℕ) (key : String) (rs : List Request)
    (l : Limits)
    → all_rows (λ r. r.minute == w) rs ≡ true
    → (count_passed is_ip config
          (λ r. is_limited r && is_creation r && is_from is_ip config key r)
          rs
          l
        ≤ l.creates.maximum)
      × (count_passed is_ip config (λ r. is_limited r && is_from is_ip config key r) rs l
          ≤ l.mutations.maximum)
      × (count_passed is_ip config is_limited rs l ≤ l.global.maximum)
count_passed-maximum is_ip config w key rs l h =
    let b = Bounded-all is_ip config w key rs l h in
    (omega (arith, b.creates), omega (arith, b.mutations), omega (arith, b.global))
