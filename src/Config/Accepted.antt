-- ===== src/Config/Accepted.antt =====
-- internal/config/config.go: what a configuration that Validate accepts holds.
use cf_tunnel.Prelude.{
  ℕ, ◌+◌, ◌≡◌, refl, true, false, inl, inr, List, [], ◌∷◌, ok, Result-cases, pos, ltb_ℤ, All,
  IsDistinct, has, arith,
}
use cf_tunnel.Text.{Text, text_eq, is_empty, trim_space}
use cf_tunnel.Text.Laws.{text_eq_sym}
use cf_tunnel.Config.{NamedTunnelConfig, AppConfig, ParseUrl}
use cf_tunnel.Config.Rules.{seen_in}
use cf_tunnel.Config.Validate.{
  validate_tunnel, validate_tunnels_from, validate, validate_log_format,
}

-- The name that a tunnel is told apart by.
abbrev pub trimmed_names : List NamedTunnelConfig → List Text
trimmed_names [] = []
trimmed_names (t ∷ tunnels) = trim_space t.name ∷ trimmed_names tunnels

module _ (parse_url : ParseUrl) where
  -- A tunnel with a name and a configuration that is accepted by itself.
  abbrev pub Accepted : NamedTunnelConfig → Type 0
  Accepted t =
      (is_empty (trim_space t.name) ≡ false) × (validate_tunnel parse_url t.cf_tunnel ≡ ok tt)

  abbrev Unseen : List Text → Text → Type 0
  Unseen seen name = seen_in name seen ≡ false

  first-Accepted :
      (i : ℕ) (seen : List Text) (t : NamedTunnelConfig) (tunnels : List NamedTunnelConfig)
      → validate_tunnels_from parse_url i seen (t ∷ tunnels) ≡ ok tt
      → Accepted t
        × Unseen seen (trim_space t.name)
        × (validate_tunnels_from parse_url (i + 1) (trim_space t.name ∷ seen) tunnels ≡ ok tt)
  unfolding validate_tunnels_from
  first-Accepted i seen t tunnels h = elim (Result-cases (validate_tunnel parse_url t.cf_tunnel)) [
    | inl (u, valid) ↦ ground arith
    | inr (e, bad) ↦ ground arith
  ]

  Unseen-here :
      (n : Text) (seen names : List Text)
      → All (Unseen (n ∷ seen)) names
      → (has text_eq n names ≡ false) × All (Unseen seen) names
  unfolding seen_in
  Unseen-here n seen [] _ = (refl, tt)
  Unseen-here n seen (m ∷ names) (u, rest) =
      let ih = Unseen-here n seen names rest in ground (arith, text_eq_sym m n)

  tunnels-Accepted :
      (i : ℕ) (seen : List Text) (tunnels : List NamedTunnelConfig)
      → validate_tunnels_from parse_url i seen tunnels ≡ ok tt
      → All Accepted tunnels
        × All (Unseen seen) (trimmed_names tunnels)
        × IsDistinct text_eq (trimmed_names tunnels)
  tunnels-Accepted i seen [] h = (tt, tt, tt)
  tunnels-Accepted i seen (t ∷ tunnels) h =
      let (here, unseen, h') = first-Accepted i seen t tunnels h in
      let (all, unseen_all, distinct) =
        tunnels-Accepted (i + 1) (trim_space t.name ∷ seen) tunnels h' in
      let (fresh, still) =
        Unseen-here (trim_space t.name) seen (trimmed_names tunnels) unseen_all in
      ((here, all), (unseen, still), (fresh, distinct))

  validate_named :
      (c : AppConfig) (t : NamedTunnelConfig) (tunnels : List NamedTunnelConfig)
      → validate parse_url c ≡ ok tt
      → c.tunnels ≡ t ∷ tunnels
      → (validate_tunnels_from parse_url 0 [] (t ∷ tunnels) ≡ ok tt)
        × (ltb_ℤ (pos 0) c.shutdown_timeout ≡ true)
  unfolding validate validate_log_format
  validate_named c t tunnels h listed = ground arith

  -- In a configuration that is accepted and lists tunnels, every tunnel has a name that is not
  -- blank and a configuration that is accepted by itself, no two tunnels have the same name up to
  -- the space around it, and the shutdown timeout is positive.
  pub validate-tunnels :
      (c : AppConfig) (t : NamedTunnelConfig) (tunnels : List NamedTunnelConfig)
      → validate parse_url c ≡ ok tt
      → c.tunnels ≡ t ∷ tunnels
      → All Accepted c.tunnels
        × IsDistinct text_eq (trimmed_names c.tunnels)
        × (ltb_ℤ (pos 0) c.shutdown_timeout ≡ true)
  unfolding validate
  validate-tunnels c t tunnels h listed =
      let (checked, positive) = validate_named c t tunnels h listed in
      let (all, _, distinct) = tunnels-Accepted 0 [] (t ∷ tunnels) checked in
      rw listed (all, distinct, positive)
