-- ===== src/Dial/Ports.antt =====
-- internal/cftunnel/runtime/quic_dialer.go: createUDPConnForConnIndex, with the map of the ports that
-- connections of an index used last. What net.ListenUDP gives is an argument: whether a port that is
-- asked for can be had, and for port 0 a failure, a socket whose address is no UDP address, or the
-- port that the system chose. The network "udp4" or "udp6" of darwin is left out.
use cf_tunnel.Prelude.{
  ◌⊎◌, ℕ, ◌==◌, ◌≡◌, ◌∙◌, refl, ap, Bool, false, Option, none, some, List, [], ◌∷◌, if◌then◌else◌,
  if_cases, inl, inr, arith,
}

-- portForConnIndex
abbrev pub Ports : Type 0
Ports = List (ℕ × ℕ)

unfoldable pub port_of : ℕ → Ports → Option ℕ
port_of index [] = none
port_of index ((i, p) ∷ ports) = if i == index then some p else port_of index ports

unfoldable pub put_port : ℕ → ℕ → Ports → Ports
put_port index port ports = (index, port) ∷ ports

unfoldable pub delete_port : ℕ → Ports → Ports
delete_port index [] = []
delete_port index ((i, p) ∷ ports) =
    let rest = delete_port index ports in if i == index then rest else (i, p) ∷ rest

-- net.ListenUDP on port 0
pub data Listened : Type 0 where
  not_listened not_udp : Listened
  listened : ℕ → Listened

pub data ListenError : Type 0 where
  listen_failed no_udp_address : ListenError

-- The random port, behind a port that is not there or cannot be had; a socket is given by its port.
unfoldable pub random_port : Listened → ℕ → Ports → (ListenError ⊎ Option ℕ) × Ports
random_port not_listened index ports = (inl listen_failed, delete_port index ports)
random_port not_udp index ports = (inl no_udp_address, ports)
random_port (listened p) index ports = (inr (some p), put_port index p ports)

unfoldable pub reuse_port :
    (ℕ → Bool) → Listened → ℕ → Option ℕ → Ports → (ListenError ⊎ Option ℕ) × Ports
reuse_port is_free random index none ports = random_port random index ports
reuse_port is_free random index (some p) ports =
    if is_free p then (inr (some p), ports) else random_port random index ports

-- `return net.ListenUDP(...)`
unfoldable pub fresh_port : Listened → ListenError ⊎ Option ℕ
fresh_port not_listened = inl listen_failed
fresh_port not_udp = inr none
fresh_port (listened p) = inr (some p)

-- createUDPConnForConnIndex, with the socket that it returns
unfoldable pub create_udp_conn :
    Bool → (ℕ → Bool) → Listened → ℕ → Ports → (ListenError ⊎ Option ℕ) × Ports
create_udp_conn skip_port_reuse is_free random index ports =
    if skip_port_reuse
    then (fresh_port random, ports)
    else reuse_port is_free random index (port_of index ports) ports

-- One dial of an edge: what the system gives it, and the index of its connection.
pub record PortCall : Type 0 where
  pub is_free : ℕ → Bool
  pub random : Listened
  pub index : ℕ

-- Dials in the order in which they take the lock, each with its index and what it comes to.
unfoldable pub create_all : List PortCall → Ports → List (ℕ × (ListenError ⊎ Option ℕ)) × Ports
create_all [] ports = ([], ports)
create_all (c ∷ calls) ports =
    let (r, ports') = create_udp_conn false c.is_free c.random c.index ports in
    let (rs, ports'') = create_all calls ports' in ((c.index, r) ∷ rs, ports'')

-- The port that a dial leaves for its index, where it found one or none.
unfoldable pub outcome : ListenError ⊎ Option ℕ → Option ℕ → Option ℕ
outcome (inl listen_failed) before = none
outcome (inl no_udp_address) before = before
outcome (inr none) before = before
outcome (inr (some p)) before = some p

-- The port of the last socket of an index, in the order of the dials.
unfoldable pub last_port : ℕ → List (ℕ × (ListenError ⊎ Option ℕ)) → Option ℕ → Option ℕ
last_port i [] before = before
last_port i ((j, r) ∷ results) before =
    last_port i results (if j == i then outcome r before else before)

port_of-delete :
    (i j : ℕ) (ports : Ports)
    → port_of i (delete_port j ports) ≡ (if j == i then none else port_of i ports)
unfolding port_of delete_port
port_of-delete i j [] = ground arith
port_of-delete i j ((k, p) ∷ ports) = ground (arith, port_of-delete i j ports)

random_port-port_of :
    (random : Listened) (i j : ℕ) (ports : Ports)
    → port_of i (random_port random j ports).1 ≡ (
        if j == i
        then outcome (random_port random j ports).0 (port_of i ports)
        else port_of i ports)
unfolding random_port outcome put_port port_of
random_port-port_of not_listened i j ports = port_of-delete i j ports
random_port-port_of not_udp i j ports = ground arith
random_port-port_of (listened p) i j ports = refl

reuse_port-port_of :
    (is_free : ℕ → Bool) (random : Listened) (i j : ℕ) (known : Option ℕ) (ports : Ports)
    → port_of j ports ≡ known
    → port_of i (reuse_port is_free random j known ports).1 ≡ (
        if j == i
        then outcome (reuse_port is_free random j known ports).0 (port_of i ports)
        else port_of i ports)
unfolding reuse_port
reuse_port-port_of is_free random i j none ports e = random_port-port_of random i j ports
reuse_port-port_of is_free random i j (some p) ports e =
    if_cases
      (λ (r : (ListenError ⊎ Option ℕ) × Ports).
        port_of i r.1 ≡ (if j == i then outcome r.0 (port_of i ports) else port_of i ports))
      (is_free p) (λ _. unfold outcome in ground arith) (λ _. random_port-port_of random i j ports)

-- After any dials over QUIC, port reuse being on, the map of ports holds for every index of a
-- connection the port of the last socket that a dial with that index got, and none where a dial
-- with that index failed to listen since.
pub create_all-last_port :
    (calls : List PortCall) (i : ℕ) (ports : Ports)
    → port_of i (create_all calls ports).1
      ≡ last_port i (create_all calls ports).0 (port_of i ports)
unfolding create_all last_port create_udp_conn
create_all-last_port [] i ports = refl
create_all-last_port (c ∷ calls) i ports =
    let next = create_udp_conn false c.is_free c.random c.index ports in
    create_all-last_port calls i next.1
    ∙ ap (last_port i (create_all calls next.1).0)
        (reuse_port-port_of c.is_free c.random i c.index (port_of c.index ports) ports refl)
