-- ===== src/Examples/Discovery.antt =====
-- A resolution of the edge, a route path and a route flag at concrete inputs.
use cf_tunnel.Prelude.{
  ◌<◌, ◌≤◌, ◌≡◌, refl, true, false, none, some, List, [], ◌∷◌, ok, err, length, All,
}
use cf_tunnel.Text.{Text, codes, text_eq, has_prefix, has_suffix, contains, trim_suffix}
use cf_tunnel.Config.Path.{
  exact, prefix, bad_prefix, bad_wildcard, no_slash, normalize_rooted,
  validate_and_normalize_route_path,
}
use cf_tunnel.Config.RouteFlag.{set_route_rule}
use cf_tunnel.Edge.{
  v4_only, Ip, TcpAddr, Srv, Provider, Dns, resolve_all_addrs, resolve_records,
  resolve_record_addrs, edge_regional_service_name, edge_ip_matches_version, srv_records,
}
use cf_tunnel.Edge.Resolved.{HasVersion, IsNamed, resolve_all_addrs-HasVersion}

abbrev ip4 : Ip
ip4 = record { text = codes "1.2.3.4"; is_v4 = true }

abbrev ip6 : Ip
ip6 = record { text = codes "::1"; is_v4 = false }

abbrev srv : Srv
srv = record { target = codes "region1"; port = 7844 }

abbrev dns : Dns
dns = record {
  lookup_srv = λ s. some (srv ∷ srv ∷ []);
  fallback_lookup_srv = λ s. none;
  lookup_ip = λ t. some (ip6 ∷ ip4 ∷ []);
}

abbrev provider : Provider
provider = record { conn_index = 3; region = []; ip_version = v4_only }

abbrev addr : TcpAddr
addr = record { ip = ip4; port = 7844 }

resolved : resolve_all_addrs dns (some provider) ≡ ok (addr ∷ addr ∷ [])
unfolding resolve_all_addrs resolve_records resolve_record_addrs edge_regional_service_name
    edge_ip_matches_version
resolved = refl

resolve_all_addrs-HasVersion_example :
    (0 < 2)
    × All (HasVersion v4_only) (addr ∷ addr ∷ [])
    × ((records : List Srv) × (srv_records dns (edge_regional_service_name []) ≡ some records)
        × (2 ≤ length records)
        × All (IsNamed dns records) (addr ∷ addr ∷ []))
resolve_all_addrs-HasVersion_example =
    resolve_all_addrs-HasVersion dns provider (addr ∷ addr ∷ []) resolved

paths :
    (validate_and_normalize_route_path (codes "/api/*") ≡ ok (prefix, codes "/api"))
    × (validate_and_normalize_route_path (codes "/api") ≡ ok (exact, codes "/api"))
    × (validate_and_normalize_route_path (codes "/*") ≡ err bad_prefix)
    × (validate_and_normalize_route_path (codes "/a*/b") ≡ err bad_wildcard)
    × (validate_and_normalize_route_path (codes "a//b") ≡ err no_slash)
unfolding validate_and_normalize_route_path normalize_rooted text_eq has_prefix has_suffix contains
    trim_suffix
paths = (refl, refl, refl, refl, refl)

abbrev flag_input : Text
flag_input = codes "/api/*=http://h:1/a,b, Host = EX.com ,pass_host_header=true"

parses :
    set_route_rule flag_input
    ≡ ok (record {
      host = codes "ex.com";
      path = codes "/api/*";
      target = codes "http://h:1/a,b";
      strip_path_prefix = false;
      origin_server_name = [];
      insecure_skip_verify = false;
      insecure_skip_verify_set = false;
      pass_host_header = true;
      pass_host_header_set = true;
    })
unfolding set_route_rule
parses = refl
