-- ===== src/Origin/Router/Put.antt =====
-- internal/cftunnel/origin/router.go: addHostRoute and the switch of NewRouter as a test and an
-- update.
use cf_tunnel.Prelude.{◌≡◌, Bool, false, some, ◌∷◌, [], ◌++◌, ok, if◌then◌else◌, arith, find}
use cf_tunnel.Text.{is_empty}
use cf_tunnel.Config.Path.{RouteKind, default, exact, prefix}
use cf_tunnel.Origin.Router.{
  Route, Router, lookup, route_host_path_key, same_path, same_host_path, is_some, add_host_route,
  add_plain_route, add_route,
}

-- The test with which add_route refuses a rule.
unfoldable pub taken : RouteKind → Route → Router → Bool
taken default route r =
    if is_empty route.host then is_some r.def else is_some (lookup route.host r.host_def)
taken exact route r =
    if is_empty route.host
    then is_some (lookup route.path r.exact_routes)
    else is_some (lookup (route_host_path_key route.host route.path) r.host_exact)
taken prefix route r =
    if is_empty route.host
    then is_some (find (same_path route.path) r.prefixes)
    else is_some (find (same_host_path route) r.host_prefixes)

-- The router with the rule.
unfoldable pub put : RouteKind → Route → Router → Router
put default route r =
    if is_empty route.host
    then record r { def = some route }
    else record r { host_def = (route.host, route) ∷ r.host_def }
put exact route r =
    if is_empty route.host
    then record r { exact_routes = (route.path, route) ∷ r.exact_routes }
    else record r { host_exact = (route_host_path_key route.host route.path, route) ∷ r.host_exact }
put prefix route r =
    if is_empty route.host
    then record r { prefixes = r.prefixes ++ route ∷ [] }
    else record r { host_prefixes = r.host_prefixes ++ route ∷ [] }

pub add_route-put :
    (kind : RouteKind) (route : Route) (r : Router)
    → taken kind route r ≡ false
    → add_route kind route r ≡ ok (put kind route r)
unfolding add_route add_plain_route add_host_route taken put
add_route-put default route r free = ground arith
add_route-put exact route r free = ground arith
add_route-put prefix route r free = ground arith

pub put_of_add_route :
    (kind : RouteKind) (route : Route) (r r' : Router)
    → add_route kind route r ≡ ok r'
    → put kind route r ≡ r'
unfolding add_route add_plain_route add_host_route put
put_of_add_route default route r r' e = ground arith
put_of_add_route exact route r r' e = ground arith
put_of_add_route prefix route r r' e = ground arith
