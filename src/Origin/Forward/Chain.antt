-- ===== src/Origin/Forward/Chain.antt =====
-- internal/cftunnel/origin/proxy.go: the client's address and the chain of forwardedClientIP.
use cf_tunnel.Prelude.{
  ◌≡◌, ◌≢◌, refl, true, false, Option, some, List, [], ◌∷◌, arith, All, inl, inr, Bool-cases,
  Option-cases,
}
use cf_tunnel.Text.{Text, text_eq, is_empty, split, trim_space}
use cf_tunnel.Text.Laws.{text_eq_iff}
use cf_tunnel.Origin.Forward.{
  Header, get_header, connecting_ip, real_ip, forwarded_for, normalize_ip, normalize_parts,
  parse_forwarded_chain, others, normalize_forwarded_chain, client_of_chain, forwarded_client_ip,
}

module _ (parse_addr : Text → Option Text) where
  -- A text that the address parser gave back, not empty.
  abbrev pub IsAddress : Text → Type 0
  IsAddress ip = (is_empty ip ≡ false) × ((raw : Text) × (parse_addr raw ≡ some ip))

  -- No client and no chain, or a client that is an address and stands once in the chain, first,
  -- before addresses only.
  pub data Trusted : Text × List Text → Type 0 where
    nobody : Trusted ([], [])
    client :
        (ip : Text) (rest : List Text)
        → IsAddress ip
        → All (λ x. IsAddress x × (x ≢ ip)) rest
        → Trusted (ip, ip ∷ rest)

  normalize_ip-IsAddress :
      (raw : Text)
      → is_empty (normalize_ip parse_addr raw) ≡ false
      → IsAddress (normalize_ip parse_addr raw)
  unfolding normalize_ip
  normalize_ip-IsAddress raw h = elim (Bool-cases (is_empty (trim_space raw))) [
    | inl blank ↦ absurd (ground arith)
    | inr full ↦ elim (Option-cases (parse_addr (trim_space raw))) [
      | inl bad ↦ absurd (ground arith)
      | inr (s, parsed) ↦ (h, (trim_space raw, ground arith))
    ]
  ]

  parts-IsAddress : (parts : List Text) → All IsAddress (normalize_parts parse_addr parts)
  unfolding normalize_parts
  parts-IsAddress [] = tt
  parts-IsAddress (part ∷ parts) = elim (Bool-cases (is_empty (normalize_ip parse_addr part))) [
    | inl gone ↦ rw gone (parts-IsAddress parts)
    | inr full ↦ rw full (normalize_ip-IsAddress part full, parts-IsAddress parts)
  ]

  others-lem :
      (ip : Text) (chain : List Text)
      → All IsAddress chain
      → All (λ x. IsAddress x × (x ≢ ip)) (others ip chain)
  unfolding others
  others-lem ip [] h = tt
  others-lem ip (x ∷ chain) (p, h) = elim (Bool-cases (text_eq x ip)) [
    | inl same ↦ rw (p.0, same) (others-lem ip chain h)
    | inr other ↦
        rw (p.0, other) ((p, λ e. ground (arith, text_eq_iff x ip)), others-lem ip chain h)
  ]

  chain-Trusted :
      (ip : Text) (chain : List Text)
      → IsAddress ip
      → All IsAddress chain
      → Trusted (ip, normalize_forwarded_chain ip chain)
  unfolding normalize_forwarded_chain
  chain-Trusted ip chain p h = rw p.0 (client ip (others ip chain) p (others-lem ip chain h))

  client-Trusted :
      (chain : List Text) (h : Header)
      → All IsAddress chain
      → Trusted (client_of_chain parse_addr chain h)
  unfolding client_of_chain
  client-Trusted (x ∷ chain) h (p, q) = chain-Trusted x (x ∷ chain) p (p, q)
  client-Trusted [] h q =
      elim (Bool-cases (is_empty (normalize_ip parse_addr (get_header real_ip h)))) [
        | inl gone ↦ rw gone nobody
        | inr full ↦ rw full (
            client (normalize_ip parse_addr (get_header real_ip h)) []
              (normalize_ip-IsAddress _ full) tt)
      ]

  -- ForwardedClientIP finds in a header no client and no chain, or a client that is an address in
  -- canonical text, first and only once in a chain of such.
  pub forwarded_client_ip-Trusted : (h : Header) → Trusted (forwarded_client_ip parse_addr h)
  unfolding forwarded_client_ip parse_forwarded_chain
  forwarded_client_ip-Trusted h =
      let chain = parts-IsAddress (split b',' (get_header forwarded_for h)) in
      elim (Bool-cases (is_empty (normalize_ip parse_addr (get_header connecting_ip h)))) [
        | inl gone ↦ rw gone (client-Trusted _ h chain)
        | inr full ↦ rw full (
            chain-Trusted (normalize_ip parse_addr (get_header connecting_ip h)) _
              (normalize_ip-IsAddress _ full) chain)
      ]

  -- With no client there is no chain.
  pub Trusted-nobody : {x : Text × List Text} → Trusted x → is_empty x.0 ≡ true → x ≡ ([], [])
  Trusted-nobody nobody e = refl
  Trusted-nobody (client ip rest p q) e = absurd (ground (arith, p.0))
