-- ===== src/Edge.antt =====
-- internal/cftunnel/runtime/edge_discovery.go: where the edge is. DNS lookups are arguments.
pub mod Pool
pub mod Resolved
use cf_tunnel.Prelude.{
  ℕ, ◌%◌, Bool, true, false, Option, none, some, List, [], ◌∷◌, ◌++◌, Result, ok, err, guard, wrap,
  ◌>>=◌, ◌>>◌, if◌then◌else◌, not, length, get_elem?, ltb, keep,
}
use cf_tunnel.Text.{Text, codes, is_empty}

abbrev pub edge_resolve_min_regions : ℕ
edge_resolve_min_regions = 2

-- EdgeIPVersion; every other value of the int8 acts as EdgeIPAuto.
pub data IpVersion : Type 0 where
  auto v4_only v6_only : IpVersion

-- A net.IP: its String() and whether To4() gives an address.
pub record Ip : Type 0 where
  pub text : Text
  pub is_v4 : Bool

pub record TcpAddr : Type 0 where
  pub ip : Ip
  pub port : ℕ

-- A net.SRV record.
pub record Srv : Type 0 where
  pub target : Text
  pub port : ℕ

pub data EdgeError : Type 0 where
  empty_static nil_provider lookup_failed no_usable no_region_addr index_range : EdgeError
  few_regions : ℕ → EdgeError
  resolve_failed : Text → EdgeError

-- StaticEdgeAddressProvider
pub record StaticProvider : Type 0 where
  pub address : Text
  pub quic_address : Text

unfoldable pub static_http2_address : StaticProvider → Result EdgeError Text
static_http2_address p = if is_empty p.address then err empty_static else ok p.address

unfoldable pub static_quic_address : StaticProvider → Result EdgeError Text
static_quic_address p =
    if not (is_empty p.quic_address)
    then ok p.quic_address
    else if is_empty p.address
    then err empty_static
    else ok p.address

-- CloudflareEdgeAddressProvider
pub record Provider : Type 0 where
  pub conn_index : ℕ
  pub region : Text
  pub ip_version : IpVersion

-- edgeRegionalServiceName
unfoldable pub edge_regional_service_name : Text → Text
edge_regional_service_name region =
    if is_empty region then codes "v2-origintunneld" else region ++ codes "-v2-origintunneld"

-- edgeIPMatchesVersion
unfoldable pub edge_ip_matches_version : Ip → IpVersion → Bool
edge_ip_matches_version ip v4_only = ip.is_v4
edge_ip_matches_version ip v6_only = not ip.is_v4
edge_ip_matches_version ip auto = true

abbrev with_port : ℕ → Ip → TcpAddr
with_port port ip = record { ip = ip; port = port }

abbrev usable : IpVersion → ℕ → List Ip → List TcpAddr
usable v port [] = []
usable v port (ip ∷ ips) =
    let rest = usable v port ips in
    if edge_ip_matches_version ip v then with_port port ip ∷ rest else rest

-- The DNS: net.LookupSRV, its fallback over TLS, and net.LookupIP.
pub record Dns : Type 0 where
  pub lookup_srv : Text → Option (List Srv)
  pub fallback_lookup_srv : Text → Option (List Srv)
  pub lookup_ip : Text → Option (List Ip)

module _ (dns : Dns) where
  -- resolveRecordAddrs
  unfoldable pub resolve_record_addrs : IpVersion → Srv → Result EdgeError (List TcpAddr)
  unfolding edge_ip_matches_version
  resolve_record_addrs v r = elim (dns.lookup_ip r.target) [
    | none ↦ err (resolve_failed r.target)
    | some ips ↦ ok (usable v r.port ips)
  ]

  unfoldable pub resolve_records : IpVersion → List Srv → Result EdgeError (List TcpAddr)
  unfolding resolve_record_addrs
  resolve_records v [] = ok []
  resolve_records v (r ∷ rs) = do
    addrs ← resolve_record_addrs v r
    rest ← resolve_records v rs
    ok (addrs ++ rest)

  abbrev pub srv_records : Text → Option (List Srv)
  srv_records service = elim (dns.lookup_srv service) [
    | some records ↦ some records
    | none ↦ dns.fallback_lookup_srv service
  ]

  abbrev non_empty : List TcpAddr → Result EdgeError (List TcpAddr)
  non_empty [] = err no_region_addr
  non_empty (a ∷ addrs) = ok (a ∷ addrs)

  -- resolveAllAddrs; a nil provider is `none`.
  unfoldable pub resolve_all_addrs : Option Provider → Result EdgeError (List TcpAddr)
  unfolding resolve_records edge_regional_service_name
  resolve_all_addrs none = err nil_provider
  resolve_all_addrs (some p) = elim (srv_records (edge_regional_service_name p.region)) [
    | none ↦ err lookup_failed
    | some records ↦ do
      guard (not (ltb (length records) edge_resolve_min_regions)) (few_regions (length records))
      addrs ← resolve_records p.ip_version records
      non_empty addrs
  ]

  abbrev elem_of : Option TcpAddr → Result EdgeError TcpAddr
  elem_of none = err index_range
  elem_of (some a) = ok a

  -- resolveEdgeAddr; `index_range` stands for the run-time panic of an index out of range.
  unfoldable pub resolve_edge_addr : Option Provider → Result EdgeError TcpAddr
  unfolding resolve_all_addrs
  resolve_edge_addr none = err nil_provider
  resolve_edge_addr (some p) = do
    addrs ← resolve_all_addrs (some p)
    elem_of (get_elem? addrs (p.conn_index % length addrs))
