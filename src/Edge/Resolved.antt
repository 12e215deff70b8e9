-- ===== src/Edge/Resolved.antt =====
-- internal/cftunnel/runtime/edge_discovery.go: what a resolution that succeeds gives.
use cf_tunnel.Prelude.{
  ℕ, zero, suc, ◌%◌, ◌<◌, ◌≤◌, ◌≡◌, ◌≢◌, refl, true, false, inl, inr, none, some, Option-cases,
  List, [], ◌∷◌, ok, >>=-eq-ok, Result-cases, length, get_elem?, ◌++◌, ◌⊎◌, if_cases, All, All-map,
  All-append, All-get_elem?, arith,
}
use native.Mathlib.Nat.{mod-lt}
use cf_tunnel.Edge.{
  IpVersion, auto, v4_only, v6_only, Ip, TcpAddr, Srv, Provider, Dns, edge_ip_matches_version,
  usable, resolve_record_addrs, resolve_records, resolve_all_addrs, resolve_edge_addr,
  edge_regional_service_name, srv_records,
}

get_elem?-lt :
    {A : Type 0} (xs : List A) (i : ℕ) → i < length xs → (x : A) × (get_elem? xs i ≡ some x)
get_elem?-lt [] i h = ground arith
get_elem?-lt (x ∷ xs) zero h = (x, refl)
get_elem?-lt (x ∷ xs) (suc i) h = get_elem?-lt xs i (omega (arith, h))

-- The address is an IPv4 one, an IPv6 one, or any.
abbrev pub HasVersion : IpVersion → TcpAddr → Type 0
HasVersion v4_only a = a.ip.is_v4 ≡ true
HasVersion v6_only a = a.ip.is_v4 ≡ false
HasVersion auto a = Unit

usable-HasVersion :
    (v : IpVersion) (port : ℕ) (ips : List Ip) → All (HasVersion v) (usable v port ips)
unfolding edge_ip_matches_version
usable-HasVersion v port [] = tt
usable-HasVersion v4_only port (ip ∷ ips) = ground (arith, usable-HasVersion v4_only port ips)
usable-HasVersion v6_only port (ip ∷ ips) = ground (arith, usable-HasVersion v6_only port ips)
usable-HasVersion auto port (ip ∷ ips) = (tt, usable-HasVersion auto port ips)

-- An IP of a list.
abbrev pub IsAmong : List Ip → Ip → Type 0
IsAmong [] ip = ⊥
IsAmong (x ∷ ips) ip = (x ≡ ip) ⊎ IsAmong ips ip

-- An address of one of the IPs, at the port.
abbrev pub IsAt : ℕ → List Ip → TcpAddr → Type 0
IsAt port ips a = IsAmong ips a.ip × (a.port ≡ port)

usable-IsAt : (v : IpVersion) (port : ℕ) (ips : List Ip) → All (IsAt port ips) (usable v port ips)
usable-IsAt v port [] = tt
usable-IsAt v port (ip ∷ ips) =
    let rest =
      All-map (IsAt port ips) (IsAt port (ip ∷ ips)) (usable v port ips)
        (λ a. λ at. (inr at.0, at.1)) (usable-IsAt v port ips) in
    if_cases (All (IsAt port (ip ∷ ips))) (edge_ip_matches_version ip v)
      (λ _. ((inl refl, refl), rest)) (λ _. rest)

-- An address that DNS gives for one of the records: an IP of its target, at its port.
abbrev pub IsNamed : Dns → List Srv → TcpAddr → Type 0
IsNamed dns [] a = ⊥
IsNamed dns (r ∷ rs) a =
    ((ips : List Ip) × (dns.lookup_ip r.target ≡ some ips) × IsAt r.port ips a) ⊎ IsNamed dns rs a

module _ (dns : Dns) where
  record_HasVersion :
      (v : IpVersion) (r : Srv) (addrs : List TcpAddr)
      → resolve_record_addrs dns v r ≡ ok addrs
      → All (HasVersion v) addrs
  unfolding resolve_record_addrs
  record_HasVersion v r addrs h = elim (Option-cases (dns.lookup_ip r.target)) [
    | inl gone ↦ ground arith
    | inr (ips, found) ↦ ground (arith, usable-HasVersion v r.port ips)
  ]

  resolve_records-HasVersion :
      (v : IpVersion) (rs : List Srv) (addrs : List TcpAddr)
      → resolve_records dns v rs ≡ ok addrs
      → All (HasVersion v) addrs
  unfolding resolve_records
  resolve_records-HasVersion v [] addrs h = ground arith
  resolve_records-HasVersion v (r ∷ rs) addrs h =
      let (here, e, h') = >>=-eq-ok (resolve_record_addrs dns v r) _ h in
      let (rest, f, last) = >>=-eq-ok (resolve_records dns v rs) _ h' in
      let all =
        All-append (HasVersion v) here rest (record_HasVersion v r here e)
          (resolve_records-HasVersion v rs rest f) in
      ground arith

  record_IsNamed :
      (v : IpVersion) (r : Srv) (rs : List Srv) (addrs : List TcpAddr)
      → resolve_record_addrs dns v r ≡ ok addrs
      → All (IsNamed dns (r ∷ rs)) addrs
  unfolding resolve_record_addrs
  record_IsNamed v r rs addrs h = elim (Option-cases (dns.lookup_ip r.target)) [
    | inl gone ↦ ground arith
    | inr (ips, found) ↦
        let same : usable v r.port ips ≡ addrs = ground arith in
        rw (← same) (
          All-map (IsAt r.port ips) (IsNamed dns (r ∷ rs)) (usable v r.port ips)
            (λ a. λ at. inl (ips, found, at)) (usable-IsAt v r.port ips))
  ]

  resolve_records-IsNamed :
      (v : IpVersion) (rs : List Srv) (addrs : List TcpAddr)
      → resolve_records dns v rs ≡ ok addrs
      → All (IsNamed dns rs) addrs
  unfolding resolve_records
  resolve_records-IsNamed v [] addrs h = let same : [] ≡ addrs = ground arith in rw (← same) tt
  resolve_records-IsNamed v (r ∷ rs) addrs h =
      let (here, e, h') = >>=-eq-ok (resolve_record_addrs dns v r) _ h in
      let (rest, f, last) = >>=-eq-ok (resolve_records dns v rs) _ h' in
      let same : here ++ rest ≡ addrs = ground arith in
      rw (← same) (
        All-append (IsNamed dns (r ∷ rs)) here rest (record_IsNamed v r rs here e) (
          All-map (IsNamed dns rs) (IsNamed dns (r ∷ rs)) rest (λ a. λ n. inr n)
            (resolve_records-IsNamed v rs rest f)))

  resolved_records :
      (p : Provider) (records : List Srv) (addrs : List TcpAddr)
      → srv_records dns (edge_regional_service_name p.region) ≡ some records
      → resolve_all_addrs dns (some p) ≡ ok addrs
      → (2 ≤ length records)
        × (resolve_records dns p.ip_version records ≡ ok addrs)
        × (0 < length addrs)
  unfolding resolve_all_addrs
  resolved_records p records addrs found h =
      elim (Result-cases (resolve_records dns p.ip_version records)) [
        | inl ([], e) ↦ ground arith
        | inl (a ∷ others, e) ↦ ground arith
        | inr (e, bad) ↦ ground arith
      ]

  no_records :
      (p : Provider) (addrs : List TcpAddr)
      → srv_records dns (edge_regional_service_name p.region) ≡ none
      → resolve_all_addrs dns (some p) ≢ ok addrs
  unfolding resolve_all_addrs
  no_records p addrs gone h = ground arith

  -- The addresses that a resolution gives are IPv4 ones where only IPv4 was asked for and IPv6
  -- ones where only IPv6 was; there is at least one; DNS named at least two regions, and each
  -- address is an IP of the target of one of the records, at the record's port.
  pub resolve_all_addrs-HasVersion :
      (p : Provider) (addrs : List TcpAddr)
      → resolve_all_addrs dns (some p) ≡ ok addrs
      → (0 < length addrs)
        × All (HasVersion p.ip_version) addrs
        × ((records : List Srv) × (srv_records dns (edge_regional_service_name p.region)
              ≡ some records)
            × (2 ≤ length records)
            × All (IsNamed dns records) addrs)
  resolve_all_addrs-HasVersion p addrs h =
      elim (Option-cases (srv_records dns (edge_regional_service_name p.region))) [
        | inl gone ↦ absurd (no_records p addrs gone h)
        | inr (records, found) ↦
            let (two, all, one) = resolved_records p records addrs found h in
            (
              one,
              resolve_records-HasVersion p.ip_version records addrs all,
              (records, found, two, resolve_records-IsNamed p.ip_version records addrs all),
            )
      ]

  -- Where the addresses resolve, the one that a connection is given is the one at its index modulo
  -- their number, which is never out of range, and it is of the version that was asked for.
  pub resolve_edge_addr-HasVersion :
      (p : Provider) (addrs : List TcpAddr)
      → resolve_all_addrs dns (some p) ≡ ok addrs
      → (a : TcpAddr) × (resolve_edge_addr dns (some p) ≡ ok a)
        × (get_elem? addrs (p.conn_index % length addrs) ≡ some a)
        × HasVersion p.ip_version a
  unfolding resolve_edge_addr
  resolve_edge_addr-HasVersion p addrs h =
      let (one, all, _) = resolve_all_addrs-HasVersion p addrs h in
      let (a, here) = get_elem?-lt addrs (p.conn_index % length addrs) (mod-lt p.conn_index one) in
      (
        a,
        rw (h, here) refl,
        here,
        All-get_elem? (HasVersion p.ip_version) addrs (p.conn_index % length addrs) all here,
      )
