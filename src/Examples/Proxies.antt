-- ===== src/Examples/Proxies.antt =====
-- The proxies of concrete routes.
use cf_tunnel.Examples.Routing.{
  lacks-Lacks, plain_url, same_text, rule, rules, route, router, no_port, compiled,
}
use cf_tunnel.Prelude.{◌++◌, ◌⊎◌, ◌≡◌, ◌≢◌, refl, true, false, none, some, [], ◌∷◌, ok, arith}
use cf_tunnel.Text.{
  codes, text_eq, trim_space, trim, trim_left, is_space, to_lower, lower, has_prefix, has_suffix,
  trim_prefix, trim_suffix, contains, mem_text,
}
use cf_tunnel.Config.Path.{prefix, normalize_rooted}
use cf_tunnel.Origin.{Target, http, parse_target, resolve_protocol, normalize_url}
use cf_tunnel.Origin.Router.{
  new_router, add_rules, add_route, add_host_route, lookup, classify_and_normalize_rule_path,
  normalize_route_host, sort_routes, insert_route, match_route, match_host, normalize_request_host,
  is_under,
}
use cf_tunnel.Origin.RoutedProxy.{
  RoutedProxy, new_routed_proxy, add_proxies, add_proxy, route_rule_proxy_key, route_proxy_key,
  lookup_proxy, pick_route_proxy, stripped_path,
}
use cf_tunnel.Origin.RoutedProxy.Stored.{HasNormalHost, HasPlainKey, IsTargetOf}
use cf_tunnel.Origin.RoutedProxy.Served.{pick_route_proxy-IsTargetOf}
use cf_tunnel.Origin.RoutedProxy.Fallback.{HasPlainRule, pick_route_proxy_fallback}
use cf_tunnel.Origin.RoutedProxy.Strip.{stripped_path_lem}

abbrev default_target : Target
default_target = record {
  raw = codes "http://d";
  protocol = http;
  url = record { scheme = codes "http"; host = codes "d"; text = codes "http://d" };
  server_name = [];
  insecure_skip_verify = false;
  pass_host_header = false;
  websocket_upgrade_mode = false;
}

abbrev route_target : Target
route_target = record default_target {
  raw = codes "http://x";
  url = record { scheme = codes "http"; host = codes "x"; text = codes "http://x" };
}

abbrev proxy : RoutedProxy
proxy = record {
  router = some router;
  default_target = default_target;
  proxy_by_target =
      (route_proxy_key (codes "h") (codes "/a") (codes "http://x") [] false false, route_target)
      ∷ ([], default_target)
      ∷ [];
}

proxy_built : new_routed_proxy plain_url same_text default_target rules ≡ ok proxy
unfolding new_routed_proxy add_proxies add_proxy route_rule_proxy_key route_proxy_key lookup_proxy
    parse_target resolve_protocol normalize_url new_router add_rules add_route add_host_route
    sort_routes insert_route classify_and_normalize_rule_path normalize_rooted normalize_route_host
    text_eq trim trim_left trim_space is_space lower to_lower has_prefix has_suffix contains
    trim_suffix trim_prefix
proxy_built = refl

normal_host : HasNormalHost (rule (codes "h"))
unfolding normalize_route_host trim trim_left trim_space is_space lower to_lower
normal_host = refl

plain_key : HasPlainKey route
plain_key = (
  lacks-Lacks b',' (codes "h") refl,
  lacks-Lacks b',' (codes "/a") refl,
  lacks-Lacks b',' (codes "http://x") refl,
  tt,
)

matched : match_route no_port router (codes "H") (codes "/a/b") ≡ some route
unfolding match_route match_host lookup is_under normalize_request_host text_eq trim trim_left
    trim_space is_space lower to_lower has_prefix mem_text
matched = refl

pick_route_proxy-IsTargetOf_example :
    (t : Target) × (pick_route_proxy no_port proxy (codes "H") (codes "/a/b") ≡ (t, some route))
    × IsTargetOf plain_url same_text default_target route t
pick_route_proxy-IsTargetOf_example =
    pick_route_proxy-IsTargetOf plain_url same_text default_target no_port rules proxy router
      (codes "H") (codes "/a/b") route (normal_host, tt) (rw compiled (plain_key, tt)) proxy_built
      refl matched

abbrev capital_proxy : RoutedProxy
capital_proxy = record proxy {
  proxy_by_target =
      (route_proxy_key (codes "H") (codes "/a") (codes "http://x") [] false false, route_target)
      ∷ ([], default_target)
      ∷ [];
}

capital_built :
    new_routed_proxy plain_url same_text default_target (rule (codes "H") ∷ []) ≡ ok capital_proxy
unfolding new_routed_proxy add_proxies add_proxy route_rule_proxy_key route_proxy_key lookup_proxy
    parse_target resolve_protocol normalize_url new_router add_rules add_route add_host_route
    sort_routes insert_route classify_and_normalize_rule_path normalize_rooted normalize_route_host
    text_eq trim trim_left trim_space is_space lower to_lower has_prefix has_suffix contains
    trim_suffix trim_prefix
capital_built = refl

classified : classify_and_normalize_rule_path (codes "/a/*") ≡ ok (prefix, codes "/a")
unfolding classify_and_normalize_rule_path normalize_rooted text_eq trim trim_left trim_space
    is_space has_prefix has_suffix contains trim_suffix trim_prefix
classified = refl

capital : normalize_route_host (codes "H") ≢ codes "H"
unfolding normalize_route_host trim trim_left trim_space is_space lower to_lower
capital = ground arith

plain_rule : HasPlainRule (rule (codes "H")) (codes "/a")
unfolding normalize_route_host trim trim_left trim_space is_space lower to_lower
plain_rule = (
  lacks-Lacks b',' (codes "H") refl,
  lacks-Lacks b',' (codes "h") refl,
  lacks-Lacks b',' (codes "/a") refl,
  lacks-Lacks b',' (codes "http://x") refl,
  tt,
)

pick_route_proxy_fallback_example :
    pick_route_proxy no_port capital_proxy (codes "h") (codes "/a/b") ≡ (default_target, none)
pick_route_proxy_fallback_example =
    pick_route_proxy_fallback plain_url same_text default_target no_port (rule (codes "H")) prefix
      (codes "/a") capital_proxy (codes "h") (codes "/a/b") capital classified plain_rule
      capital_built

stripped_path_example :
    (has_prefix (stripped_path route (codes "/a/b")) (codes "/") ≡ true)
    × ((route.path ++ stripped_path route (codes "/a/b") ≡ codes "/a/b")
        ⊎ ((codes "/a/b" ≡ route.path) × (stripped_path route (codes "/a/b") ≡ codes "/")))
unfolding is_under text_eq has_prefix
stripped_path_example = stripped_path_lem route (codes "/a/b") refl refl refl refl
