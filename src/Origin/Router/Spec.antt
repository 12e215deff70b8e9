-- ===== src/Origin/Router/Spec.antt =====
-- What NewRouter and Match of internal/cftunnel/origin/router.go promise, with no tables and no
-- sorting: a choice among the rules in the order in which they were written.
use cf_tunnel.Prelude.{
  Bool, true, false, ◌&&◌, Option, none, some, List, [], ◌∷◌, ◌++◌, ok, err, if◌then◌else◌, not,
  ltb, ◌<|>◌,
}
use cf_tunnel.Text.{Text, text_eq, is_empty, byte_len}
use cf_tunnel.Config.{RouteRule}
use cf_tunnel.Config.Path.{RouteKind, default, exact, prefix}
use cf_tunnel.Origin.Router.{Route, classify_and_normalize_rule_path, route_of, is_under, on_host}

-- The rules with their kinds, in order.
unfoldable pub compile : List RouteRule → List (RouteKind × Route)
compile [] = []
compile (rr ∷ rules) =
    let rest = compile rules in
    elim (classify_and_normalize_rule_path rr.path) [
      | err _ ↦ rest
      | ok (kind, normalized) ↦ (kind, route_of rr normalized) ∷ rest
    ]

abbrev pub Test : Type 0
Test = RouteKind → Route → Bool

abbrev pub one_if : Bool → Route → Option Route
one_if true r = some r
one_if false r = none

abbrev pub list_if : Bool → Route → List Route
list_if true r = r ∷ []
list_if false r = []

-- The first rule that passes a test.
abbrev pub first : Test → List (RouteKind × Route) → Option Route
first t [] = none
first t ((k, r) ∷ cs) = one_if (t k r) r <|> first t cs

-- All rules that pass a test.
abbrev pub select : Test → List (RouteKind × Route) → List Route
select t [] = []
select t ((k, r) ∷ cs) = list_if (t k r) r ++ select t cs

-- The longer of two routes, the first one where they are equally long.
abbrev pub longer : Route → Option Route → Option Route
longer x none = some x
longer x (some y) = if ltb (byte_len x.path) (byte_len y.path) then some y else some x

-- The longest route that passes a test, the first of these where several are.
abbrev pub longest : (Route → Bool) → List Route → Option Route
longest p [] = none
longest p (x ∷ xs) = let rest = longest p xs in if p x then longer x rest else rest

abbrev pub is_default : RouteKind → Bool
is_default default = true
is_default exact = false
is_default prefix = false

abbrev pub is_exact : RouteKind → Bool
is_exact exact = true
is_exact default = false
is_exact prefix = false

abbrev pub is_prefix : RouteKind → Bool
is_prefix prefix = true
is_prefix default = false
is_prefix exact = false

abbrev pub plain_exact_at : Text → Test
plain_exact_at path k r = is_exact k && (is_empty r.host && text_eq r.path path)

abbrev pub plain_prefix_at : Test
plain_prefix_at k r = is_prefix k && is_empty r.host

abbrev pub plain_default_at : Test
plain_default_at k r = is_default k && is_empty r.host

abbrev pub host_exact_at : Text → Text → Test
host_exact_at host path k r = is_exact k && (text_eq r.host host && text_eq r.path path)

abbrev pub host_prefix_rule : Test
host_prefix_rule k r = is_prefix k && not (is_empty r.host)

abbrev pub host_default_at : Text → Test
host_default_at host k r = is_default k && text_eq r.host host

module _ (host path : Text) where
  -- Rules of the request's host come first; of these and of the rest each, an exact path comes
  -- before the longest prefix, and that before the default.
  unfoldable pub match_spec : List (RouteKind × Route) → Option Route
  match_spec cs =
      (if is_empty host
        then none
        else first (host_exact_at host path) cs
          <|> longest (on_host host path) (select host_prefix_rule cs)
          <|> first (host_default_at host) cs)
      <|> first (plain_exact_at path) cs
      <|> longest (is_under path) (select plain_prefix_at cs)
      <|> first plain_default_at cs
