-- ===== src/Examples/Dials.antt =====
-- Dials of an edge at concrete answers of the system.
use cf_tunnel.Prelude.{ℕ, ◌≡◌, ◌⊎◌, inl, refl, true, false, none, some, List, [], ◌∷◌}
use cf_tunnel.Text.{Text}
use cf_tunnel.Dial.{
  made, new_dial_config, with_tls, default_factory, default_factory-new, transport_of, dialed,
  effective_timeout,
}
use cf_tunnel.Dial.Ports.{
  Ports, PortCall, listened, not_listened, create_all, port_of, last_port, create_all-last_port,
}

-- The provider fails; a TLS configuration is a number here.
abbrev tls : ℕ
tls = 5

abbrev failing : ℕ ⊎ Text
failing = inl 3

default_factory-new_example :
    default_factory failing none (some (made [] true 0 tls))
    ≡ transport_of (dialed failing []) tls (effective_timeout 0)
default_factory-new_example =
    default_factory-new failing [] true 0 tls (made [] true 0 tls)
      (unfold new_dial_config in unfold with_tls in refl)

abbrev calls : List PortCall
calls =
    record { is_free = λ p. true; random = listened 4000; index = 0 }
    ∷ record { is_free = λ p. true; random = listened 4001; index = 1 }
    ∷ record { is_free = λ p. false; random = not_listened; index = 1 }
    ∷ record { is_free = λ p. true; random = listened 4002; index = 0 }
    ∷ []

abbrev no_ports : Ports
no_ports = []

create_all-last_port_example :
    port_of 0 (create_all calls no_ports).1
    ≡ last_port 0 (create_all calls no_ports).0 (port_of 0 no_ports)
create_all-last_port_example = create_all-last_port calls 0 no_ports
