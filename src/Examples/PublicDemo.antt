-- ===== src/Examples/PublicDemo.antt =====
-- Two requests for a session in one minute, of which the limit lets one through.
use cost_engine_orchestratio.Base.{
  ◌≤◌, String, Bool, true, ◌&&◌, ◌≡◌, refl, List, [], ◌∷◌, some, none, nat_eq, ◌==◌, all_rows,
}
use cost_engine_orchestratio.Deployment.PublicHttp.{
  PublicDemoConfig, Request, post_method, new_limits, sessions_path, is_creation,
}
use cost_engine_orchestratio.Deployment.RateLimits.{
  count_passed, is_limited, is_from, count_passed-maximum,
}

abbrev one_creation : PublicDemoConfig
one_creation = record {
  origin = "https://demo";
  proxy_secret = "secret";
  creates_per_minute = 1;
  mutations_per_minute = 5;
  global_mutations_per_minute = 9;
}

abbrev any_ip : String → Bool
any_ip a = true

abbrev creation_request : Request
creation_request = record {
  url = sessions_path;
  method = post_method;
  remote_address = "10.0.0.2";
  proxy_key = some "secret";
  client_ip = some "192.0.2.1";
  origin = some "https://demo";
  fetch_site = none;
  demo_session = some "1";
  minute = 7;
}

abbrev two_creations : List Request
two_creations = creation_request ∷ creation_request ∷ []

abbrev is_created : Request → Bool
is_created r = is_limited r && is_creation r && is_from any_ip one_creation "192.0.2.1" r

one_passes : count_passed any_ip one_creation is_created two_creations (new_limits one_creation) ≡ 1
unfolding count_passed
one_passes = refl

two_creations_minute : all_rows (λ r. r.minute == 7) two_creations ≡ true
unfolding all_rows
two_creations_minute = refl

count_passed-maximum_example :
    (count_passed any_ip one_creation is_created two_creations (new_limits one_creation) ≤ 1)
    × (count_passed any_ip one_creation
          (λ r. is_limited r && is_from any_ip one_creation "192.0.2.1" r)
          two_creations
          (new_limits one_creation)
        ≤ 5)
    × (count_passed any_ip one_creation is_limited two_creations (new_limits one_creation) ≤ 9)
count_passed-maximum_example =
    count_passed-maximum any_ip one_creation 7 "192.0.2.1" two_creations (new_limits one_creation)
      two_creations_minute
