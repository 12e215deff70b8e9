-- ===== src/Origin/RoutedProxy.antt =====
-- internal/cftunnel/origin/routed_proxy.go. A Proxy is determined by its target; a nil router is
-- `none`. The proxies stand in a map under the keys that routeProxyKey prints.
pub mod Key
pub mod Stored
pub mod Served
pub mod Fallback
pub mod Strip
use cf_tunnel.Prelude.{
  ℕ, ◌+◌, ◌≡◌, refl, Bool, true, false, ◌||◌, ◌&&◌, Option, none, some, List, [], ◌∷◌, ◌++◌, Result,
  ok, err, wrap, ◌>>=◌, not, if◌then◌else◌, length, drop,
}
use cf_tunnel.Text.{Text, codes, text_eq, is_empty, has_prefix, trim_prefix}
use cf_tunnel.Config.{RouteRule, ParseUrl}
use cf_tunnel.Config.Path.{PathError}
use cf_tunnel.Config.RouteFlag.{format_bool}
use cf_tunnel.Origin.{Target, TargetError, SetScheme, parse_target}
use cf_tunnel.Origin.Router.{
  Route, Router, RouterError, new_router, match_route, classify_and_normalize_rule_path, is_some,
}

abbrev pub Proxies : Type 0
Proxies = List (Text × Target)

pub record RoutedProxy : Type 0 where
  pub router : Option Router
  pub default_target : Target
  pub proxy_by_target : Proxies

pub data ProxyError : Type 0 where
  router_error : RouterError → ProxyError
  target_error : ℕ → TargetError → ProxyError
  key_error : ℕ → PathError → ProxyError

unfoldable pub lookup_proxy : Text → Proxies → Option Target
lookup_proxy k [] = none
lookup_proxy k ((j, v) ∷ m) = if text_eq j k then some v else lookup_proxy k m

-- routeProxyKey
unfoldable pub route_proxy_key : Text → Text → Text → Text → Bool → Bool → Text
route_proxy_key host path target server_name insecure_skip_verify pass_host_header =
    codes "host="
    ++ (host
        ++ (codes ",path="
            ++ (path
                ++ (codes ",target="
                    ++ (target
                        ++ (codes ",server_name="
                            ++ (server_name
                                ++ (codes ",insecure_skip_verify="
                                    ++ (format_bool insecure_skip_verify
                                        ++ (codes ",pass_host_header="
                                            ++ format_bool pass_host_header))))))))))

-- routeRuleProxyKey
unfoldable pub route_rule_proxy_key : RouteRule → Bool → Result PathError Text
route_rule_proxy_key rr pass_host_header = do
  (_, normalized) ← classify_and_normalize_rule_path rr.path
  ok (
      route_proxy_key rr.host normalized rr.target rr.origin_server_name rr.insecure_skip_verify
        pass_host_header)

-- matchedRouteProxyKey
unfoldable pub matched_route_proxy_key : Route → Bool → Text
matched_route_proxy_key route default_pass_host_header =
    route_proxy_key route.host route.path route.target route.origin_server_name
      route.insecure_skip_verify
      (if route.pass_host_header_set then route.pass_host_header else default_pass_host_header)

abbrev pub rule_pass_host_header : Target → RouteRule → Bool
rule_pass_host_header default_target rr =
    if rr.pass_host_header_set then rr.pass_host_header else default_target.pass_host_header

module _ (parse_url : ParseUrl) (set_scheme : SetScheme) (default_target : Target) where
  -- One round of the loop of NewRoutedProxy.
  unfoldable pub add_proxy : ℕ → RouteRule → Proxies → Result ProxyError Proxies
  add_proxy i rr proxies = do
    let pass_host_header = rule_pass_host_header default_target rr
    target ← wrap (target_error i) (
        parse_target parse_url set_scheme rr.target rr.origin_server_name rr.insecure_skip_verify
          pass_host_header)
    key ← wrap (key_error i) (route_rule_proxy_key rr pass_host_header)
    ok (if is_some (lookup_proxy key proxies) then proxies else (key, target) ∷ proxies)

  unfoldable pub add_proxies : ℕ → List RouteRule → Proxies → Result ProxyError Proxies
  add_proxies i [] proxies = ok proxies
  add_proxies i (rr ∷ rules) proxies = do
    proxies' ← add_proxy i rr proxies
    add_proxies (i + 1) rules proxies'

  -- NewRoutedProxy
  unfoldable pub new_routed_proxy : List RouteRule → Result ProxyError RoutedProxy
  new_routed_proxy [] =
      ok (record { router = none; default_target = default_target; proxy_by_target = [] })
  new_routed_proxy (rr ∷ rules) = do
    router ← wrap router_error (new_router (rr ∷ rules))
    proxies ← add_proxies 0 (rr ∷ rules) (([], default_target) ∷ [])
    ok (record { router = some router; default_target = default_target; proxy_by_target = proxies })

-- pickRouteProxy: the target of the proxy, and the route if one matched and its proxy was found.
unfoldable pub pick_route_proxy :
    (Text → Option Text) → RoutedProxy → Text → Text → Target × Option Route
pick_route_proxy split_host_port p host path = elim p.router [
  | none ↦ (p.default_target, none)
  | some router ↦ elim (match_route split_host_port router host path) [
    | none ↦ (p.default_target, none)
    | some route ↦
        elim (lookup_proxy (matched_route_proxy_key route p.default_target.pass_host_header)
          p.proxy_by_target) [
            | none ↦ (p.default_target, none)
            | some target ↦ (target, some route)
          ]
  ]
]

-- requestWithStrippedPathPrefix, on the path of the request's URL.
unfoldable pub stripped_path : Route → Text → Text
stripped_path route path =
    if not route.strip_path_prefix || is_empty route.path || text_eq route.path (codes "/")
    then path
    else if not (text_eq path route.path) && not (has_prefix path (route.path ++ codes "/"))
    then path
    else (let rest = trim_prefix path route.path in if is_empty rest then codes "/" else rest)

abbrev path_for : Option Route → Text → Text
path_for none path = path
path_for (some route) path = stripped_path route path

-- What ServeHTTP and ProxyWebsocket pass on: the target of the proxy and the path of the request.
unfoldable pub serve : (Text → Option Text) → RoutedProxy → Text → Text → Target × Text
serve split_host_port p host path =
    let (target, route) = pick_route_proxy split_host_port p host path in
    (target, path_for route path)
