-- ===== src/Examples/Routing.antt =====
-- Routing at concrete rules.
use cf_tunnel.Prelude.{
  ℕ, ◌≡◌, ◌↔◌, refl, Bool, true, false, ◌&&◌, not, ◌==◌, Option, none, some, List, [], ◌∷◌, ok, All,
  arith,
}
use cf_tunnel.Text.{
  Text, codes, text_eq, trim_space, trim, trim_left, is_space, to_lower, lower, has_prefix,
  has_suffix, trim_prefix, trim_suffix, contains, contains_any, mem_text,
}
use cf_tunnel.Text.Laws.{Lacks}
use cf_tunnel.Config.{RouteRule, ParseUrl}
use cf_tunnel.Config.Path.{
  prefix, normalize_rooted, validate_and_normalize_route_path, validate_route_host,
}
use cf_tunnel.Config.Rules.{
  validate_route_rules, validate_routes_from, validate_route, note_path, seen_in, validate_target,
  is_scheme,
}
use cf_tunnel.Origin.{SetScheme}
use cf_tunnel.Origin.Router.{
  Route, Router, new_router, add_rules, add_route, add_host_route, classify_and_normalize_rule_path,
  normalize_route_host, sort_routes, insert_route, match_route, normalize_request_host,
  empty_router,
}
use cf_tunnel.Origin.Router.Spec.{compile, match_spec}
use cf_tunnel.Origin.Router.Tables.{HostsLackNul}
use cf_tunnel.Origin.Router.Refines.{match_route-match_spec}
use cf_tunnel.Origin.Router.Choice.{applies, match_route-none}
use cf_tunnel.Origin.Router.Accepts.{HasTrimmedPath, new_router-validate_route_rules}

-- Whether no code point of a text is the given one.
abbrev lacks : ℕ → Text → Bool
lacks b [] = true
lacks b (c ∷ t) = not (c == b) && lacks b t

pub lacks-Lacks : (b : ℕ) (t : Text) → lacks b t ≡ true → Lacks b t
lacks-Lacks b [] h = tt
lacks-Lacks b (c ∷ t) h = ground (arith, lacks-Lacks b t)

abbrev pub plain_url : ParseUrl
plain_url t = some (record { scheme = codes "http"; host = codes "x"; text = t })

abbrev pub same_text : SetScheme
same_text u s = u.text

abbrev pub rule : Text → RouteRule
rule host = record {
  host = host;
  path = codes "/a/*";
  target = codes "http://x";
  strip_path_prefix = true;
  origin_server_name = [];
  insecure_skip_verify = false;
  insecure_skip_verify_set = false;
  pass_host_header = false;
  pass_host_header_set = false;
}

abbrev pub rules : List RouteRule
rules = rule (codes "h") ∷ []

abbrev pub route : Route
route = record {
  host = codes "h";
  path = codes "/a";
  target = codes "http://x";
  strip_path_prefix = true;
  origin_server_name = [];
  insecure_skip_verify = false;
  insecure_skip_verify_set = false;
  pass_host_header = false;
  pass_host_header_set = false;
}

abbrev pub router : Router
router = record empty_router { host_prefixes = route ∷ [] }

abbrev pub no_port : Text → Option Text
no_port h = none

built : new_router rules ≡ ok router
unfolding new_router add_rules add_route add_host_route sort_routes insert_route
    classify_and_normalize_rule_path normalize_rooted normalize_route_host text_eq trim trim_left
    trim_space is_space lower to_lower has_prefix has_suffix contains trim_suffix trim_prefix
built = refl

pub compiled : compile rules ≡ (prefix, route) ∷ []
unfolding compile classify_and_normalize_rule_path normalize_rooted normalize_route_host text_eq
    trim trim_left trim_space is_space lower to_lower has_prefix has_suffix contains trim_suffix
    trim_prefix
compiled = refl

hosts : HostsLackNul (compile rules)
hosts = rw compiled (lacks-Lacks 0 (codes "h") refl, tt)

host-Lacks : Lacks 0 (normalize_request_host no_port (codes "H"))
unfolding normalize_request_host trim trim_left trim_space is_space lower to_lower mem_text
host-Lacks = lacks-Lacks 0 (codes "h") refl

match_route-match_spec_example :
    match_route no_port router (codes "H") (codes "/a/b")
    ≡ match_spec (normalize_request_host no_port (codes "H")) (codes "/a/b") (compile rules)
match_route-match_spec_example =
    match_route-match_spec no_port rules router (codes "H") (codes "/a/b") built hosts host-Lacks

match_route-none_example :
    (match_route no_port router (codes "H") (codes "/c") ≡ none)
    ↔ All
        (λ c. applies (normalize_request_host no_port (codes "H")) (codes "/c") c ≡ false)
        (compile rules)
match_route-none_example =
    match_route-none no_port rules router (codes "H") (codes "/c") built hosts host-Lacks

valid : validate_route_rules plain_url rules ≡ ok tt
unfolding validate_route_rules validate_routes_from validate_route note_path seen_in validate_target
    is_scheme validate_and_normalize_route_path validate_route_host contains_any mem_text
    normalize_rooted text_eq trim trim_left trim_space is_space lower to_lower has_prefix has_suffix
    contains trim_suffix trim_prefix
valid = refl

new_router-validate_route_rules_example :
    All HasTrimmedPath rules ↔ ((r : Router) × (new_router rules ≡ ok r))
new_router-validate_route_rules_example = new_router-validate_route_rules plain_url rules valid
