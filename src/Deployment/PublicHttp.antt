-- ===== src/Deployment/PublicHttp.antt =====
-- deployment/public-demo-http.ts: the hook that every request of the public demo passes first. `isIP` is
-- a parameter; an address or an origin is a text of the header.
use cost_engine_orchestratio.Base.{
  ℕ, ◌+◌, String, Bool, true, false, not, ◌&&◌, ◌||◌, Option, none, some, List, [], ◌∷◌, ◌++◌,
  if◌then◌else◌, ◌==◌, ◌/=◌, nat_eq, string_eq, ltb, length,
}
use cost_engine_orchestratio.DemoSession.Maps.{get_key, set_key}
use cost_engine_orchestratio.DemoSession.Cookies.{Text, text_eq}

-- one limit: the requests of each key in the current window; the window is -1 at first, here none
pub record WindowLimit : Type 0 where
  pub maximum : ℕ
  pub max_keys : ℕ
  pub window : Option ℕ
  pub counts : List (String × ℕ)

abbrev pub window_limit : ℕ → ℕ → WindowLimit
window_limit maximum max_keys = record {
  maximum = maximum;
  max_keys = max_keys;
  window = none;
  counts = [];
}

abbrev pub is_window : Option ℕ → ℕ → Bool
is_window none w = false
is_window (some v) w = v == w

abbrev pub or_zero : Option ℕ → ℕ
or_zero none = 0
or_zero (some n) = n

unfoldable pub count_of : String → WindowLimit → ℕ
unfolding get_key
count_of key l = or_zero (get_key key l.counts)

abbrev pub enter_window : ℕ → WindowLimit → WindowLimit
enter_window w l = if is_window l.window w then l else record l { window = some w; counts = [] }

abbrev pub has_room : String → WindowLimit → Bool
has_room key l =
    ltb (count_of key l) l.maximum && (ltb 0 (count_of key l) || ltb (length l.counts) l.max_keys)

-- available
unfoldable pub available : String → ℕ → WindowLimit → Bool × WindowLimit
unfolding count_of
available key w l = let entered = enter_window w l in (has_room key entered, entered)

-- consume
unfoldable pub consume : String → WindowLimit → WindowLimit
unfolding set_key count_of
consume key l = record l { counts = set_key key (count_of key l + 1) l.counts }

pub record PublicDemoConfig : Type 0 where
  pub origin : String
  pub proxy_secret : String
  pub creates_per_minute : ℕ
  pub mutations_per_minute : ℕ
  pub global_mutations_per_minute : ℕ

pub record Limits : Type 0 where
  pub creates : WindowLimit
  pub mutations : WindowLimit
  pub global : WindowLimit

abbrev pub new_limits : PublicDemoConfig → Limits
new_limits config = record {
  creates = window_limit config.creates_per_minute 4096;
  mutations = window_limit config.mutations_per_minute 4096;
  global = window_limit config.global_mutations_per_minute 1;
}

pub data Method : Type 0 where
  get_method post_method : Method
  other_method : Method

-- a request, with its headers if they are given and the minute in which it comes
pub record Request : Type 0 where
  pub url : Text
  pub method : Method
  pub remote_address : String
  pub proxy_key : Option String
  pub client_ip : Option String
  pub origin : Option String
  pub fetch_site : Option String
  pub demo_session : Option String
  pub minute : ℕ

-- the request goes on to its route, or is replied with a status
pub data Reply : Type 0 where
  passed : Reply
  replied : ℕ → Reply

abbrev pub path_of : Text → Text
path_of [] = []
path_of (c ∷ url) = if c == b'?' then [] else c ∷ path_of url

abbrev pub starts_with : Text → Text → Bool
starts_with url [] = true
starts_with [] (p ∷ prefix) = false
starts_with (c ∷ url) (p ∷ prefix) = (c == p) && starts_with url prefix

abbrev health_path : Text
health_path = b'/' ∷ b'h' ∷ b'e' ∷ b'a' ∷ b'l' ∷ b't' ∷ b'h' ∷ []

abbrev ready_path : Text
ready_path = health_path ++ b'/' ∷ b'r' ∷ b'e' ∷ b'a' ∷ b'd' ∷ b'y' ∷ []

abbrev demo_path : Text
demo_path = b'/' ∷ b'd' ∷ b'e' ∷ b'm' ∷ b'o' ∷ b'/' ∷ []

abbrev pub sessions_path : Text
sessions_path = demo_path ++ b's' ∷ b'e' ∷ b's' ∷ b's' ∷ b'i' ∷ b'o' ∷ b'n' ∷ b's' ∷ []

abbrev pub is_post : Method → Bool
is_post post_method = true
is_post _ = false

abbrev is_get : Method → Bool
is_get get_method = true
is_get _ = false

abbrev is_header : String → Option String → Bool
is_header v none = false
is_header v (some u) = u == v

abbrev is_local : String → Bool
is_local a = (a == "127.0.0.1") || (a == "::1") || (a == "::ffff:127.0.0.1")

abbrev pub is_health : Text → Bool
is_health path = (path == health_path) || starts_with path (health_path ++ b'/' ∷ [])

abbrev pub health_reply : Request → Reply
health_reply r =
    if (path_of r.url == ready_path) && is_get r.method && is_local r.remote_address
    then passed
    else replied 404

-- the address that the proxy vouches for
abbrev pub proxy_address : (String → Bool) → PublicDemoConfig → Request → Option String
proxy_address is_ip config r =
    if is_header config.proxy_secret r.proxy_key
    then elim r.client_ip [ none ↦ none | some a ↦ if is_ip a then some a else none ]
    else none

abbrev pub is_cross_site : PublicDemoConfig → Request → Bool
is_cross_site config r =
    starts_with r.url demo_path
    && (is_header "cross-site" r.fetch_site
        || elim r.origin [ none ↦ false | some o ↦ o /= config.origin ]
        || (is_post r.method
            && (not (is_header config.origin r.origin) || not (is_header "1" r.demo_session))))

abbrev pub is_creation : Request → Bool
is_creation r = path_of r.url == sessions_path

-- the budgets are asked from left to right, until one is spent
unfoldable pub admit_creation : Bool → String → ℕ → Limits → Bool × Limits
unfolding available
admit_creation false address w l = (true, l)
admit_creation true address w l =
    let (ok, creates) = available address w l.creates in (ok, record l { creates = creates })

unfoldable pub admit_mutation : String → ℕ → Bool × Limits → Bool × Limits
unfolding available
admit_mutation address w (false, l) = (false, l)
admit_mutation address w (true, l) =
    let (ok, mutations) = available address w l.mutations in
    (ok, record l { mutations = mutations })

unfoldable pub admit_global : ℕ → Bool × Limits → Bool × Limits
unfolding available
admit_global w (false, l) = (false, l)
admit_global w (true, l) =
    let (ok, global) = available "all" w l.global in (ok, record l { global = global })

unfoldable pub charge : Bool → String → Limits → Limits
unfolding consume
charge creation address l = record {
  creates = if creation then consume address l.creates else l.creates;
  mutations = consume address l.mutations;
  global = consume "all" l.global;
}

abbrev pub reply_post : Bool → String → Bool × Limits → Reply × Limits
reply_post creation address (true, l) = (passed, charge creation address l)
reply_post creation address (false, l) = (replied 429, l)

unfoldable pub rate_limit : Bool → String → ℕ → Limits → Reply × Limits
unfolding admit_creation admit_mutation admit_global charge
rate_limit creation address w l =
    reply_post creation address
      (admit_global w (admit_mutation address w (admit_creation creation address w l)))

abbrev pub proxied : PublicDemoConfig → Request → Limits → Option String → Reply × Limits
proxied config r l none = (replied 403, l)
proxied config r l (some address) =
    if is_cross_site config r
    then (replied 403, l)
    else if is_post r.method
    then rate_limit (is_creation r) address r.minute l
    else (passed, l)

-- the onRequest hook
unfoldable pub on_request : (String → Bool) → PublicDemoConfig → Request → Limits → Reply × Limits
unfolding rate_limit
on_request is_ip config r l =
    if is_health (path_of r.url)
    then (health_reply r, l)
    else proxied config r l (proxy_address is_ip config r)
