-- ===== src/Dial.antt =====
-- internal/cftunnel/runtime/http2_dial_config.go: the address that an HTTP/2 connection dials, and
-- http2_options.go: the transport that it then has. A TLS configuration is a value of T, and the
-- address that the provider gives, or its error, an argument of each call. A timeout is not negative.
pub mod Ports
use cf_tunnel.Prelude.{
  ◌⊎◌, ℕ, ◌==◌, ◌≡◌, ◌↔◌, ◌∙◌, refl, sym, Bool, true, false, not, Option, none, some, List, [], ◌∷◌,
  ◌||◌, ◌&&◌, if◌then◌else◌, if_cases, inl, inr, Option-cases, Bool-cases, arith,
}
use mathlib.Core.Sum.{inr-injective, inl-ne-inr}
use cf_tunnel.Text.{Text, is_empty}

pub data DialError (E : Type 0) : Type 0 where
  nil_runtime nil_config empty_address missing_tls : DialError E
  unresolved : E → DialError E
  resolved_empty : DialError E

-- HTTP2DialConfig
pub record DialConfig (T : Type 0) : Type 0 where
  pub address : Text
  pub has_provider : Bool
  pub resolved_address : Text
  pub tls : T
  pub timeout : ℕ

abbrev pub default_timeout : ℕ
default_timeout = 10000000000

-- DialHTTP2TransportFactory
pub record Dialer (T : Type 0) : Type 0 where
  pub address : Text
  pub tls : T
  pub timeout : ℕ

-- The transports of HTTP2ServerOptions: one that the caller gives, a dialed one, a pipe in memory.
pub data Factory (T : Type 0) : Type 0 where
  given : ℕ → Factory T
  dial : Dialer T → Factory T
  pipe : Factory T

unfoldable pub made : {T : Type 0} → Text → Bool → ℕ → T → DialConfig T
made address has_provider timeout tls = record {
  address = address;
  has_provider = has_provider;
  resolved_address = [];
  tls = tls;
  timeout = if timeout == 0 then default_timeout else timeout;
}

-- Which address is dialed: the one that was given, or else the one that the provider names.
unfoldable pub dialed : {E : Type 0} → E ⊎ Text → Text → Option Text
dialed answer (c ∷ address) = some (c ∷ address)
dialed (inl e) [] = none
dialed (inr []) [] = none
dialed (inr (c ∷ a)) [] = some (c ∷ a)

unfoldable pub transport_of : {T : Type 0} → Option Text → T → ℕ → Factory T
transport_of none tls timeout = pipe
transport_of (some a) tls timeout = dial (record { address = a; tls = tls; timeout = timeout })

abbrev pub effective_timeout : ℕ → ℕ
effective_timeout timeout = if timeout == 0 then default_timeout else timeout

module _ {E : Type 0} {T : Type 0} where
  unfoldable pub with_tls : Text → Bool → ℕ → Option T → DialError E ⊎ DialConfig T
  unfolding made
  with_tls address has_provider timeout none = inl missing_tls
  with_tls address has_provider timeout (some tls) = inr (made address has_provider timeout tls)

  -- NewHTTP2DialConfigWithProvider; a prepared runtime that is there has a TLS configuration for
  -- HTTP/2 or not.
  unfoldable pub new_dial_config : Option (Option T) → Text → Bool → ℕ → DialError E ⊎ DialConfig T
  new_dial_config none address has_provider timeout = inl nil_runtime
  new_dial_config (some t) address has_provider timeout =
      if is_empty address && not has_provider
      then inl empty_address
      else with_tls address has_provider timeout t

  -- The answer of the provider, kept where it is an address.
  unfoldable pub keep_answer : E ⊎ Text → DialConfig T → (DialError E ⊎ Text) × DialConfig T
  keep_answer (inl e) c = (inl (unresolved e), c)
  keep_answer (inr a) c =
      if is_empty a then (inl resolved_empty, c) else (inr a, record c { resolved_address = a })

  -- HTTP2DialConfig.resolveAddress, with the configuration that it leaves
  unfoldable pub resolve_address : E ⊎ Text → DialConfig T → (DialError E ⊎ Text) × DialConfig T
  resolve_address answer c =
      if not (is_empty c.resolved_address)
      then (inr c.resolved_address, c)
      else if not (is_empty c.address)
      then (inr c.address, record c { resolved_address = c.address })
      else if not c.has_provider
      then (inl empty_address, c)
      else keep_answer answer c

  -- HTTP2DialConfig.TransportFactory
  unfoldable pub factory_of : (DialError E ⊎ Text) × DialConfig T → DialError E ⊎ Dialer T
  factory_of (inl e, c) = inl e
  factory_of (inr a, c) = inr (record { address = a; tls = c.tls; timeout = c.timeout })

  unfoldable pub transport_factory : E ⊎ Text → Option (DialConfig T) → DialError E ⊎ Dialer T
  transport_factory answer none = inl nil_config
  transport_factory answer (some c) = factory_of (resolve_address answer c)

  -- The transport in HTTP2ServerOptions.withDefaults
  unfoldable pub or_pipe : DialError E ⊎ Dialer T → Factory T
  or_pipe (inl e) = pipe
  or_pipe (inr d) = dial d

  unfoldable pub default_factory : E ⊎ Text → Option ℕ → Option (DialConfig T) → Factory T
  default_factory answer (some f) config = given f
  default_factory answer none none = pipe
  default_factory answer none (some c) = or_pipe (transport_factory answer (some c))

  factory-made :
      (answer : E ⊎ Text) (address : Text) (has_provider : Bool) (timeout : ℕ) (tls : T)
      → (is_empty address && not has_provider) ≡ false
      → default_factory answer none (some (made address has_provider timeout tls))
        ≡ transport_of (dialed answer address) tls (effective_timeout timeout)
  unfolding default_factory transport_factory or_pipe factory_of resolve_address keep_answer dialed
      transport_of made
  factory-made answer (x ∷ address) has_provider timeout tls h = refl
  factory-made answer [] false timeout tls h = ground arith
  factory-made (inl e) [] true timeout tls h = refl
  factory-made (inr []) [] true timeout tls h = refl
  factory-made (inr (x ∷ a)) [] true timeout tls h = refl

  with_tls-made :
      (address : Text) (has_provider : Bool) (timeout : ℕ) (tls : T) (c : DialConfig T)
      → new_dial_config (some (some tls)) address has_provider timeout ≡ inr c
      → ((is_empty address && not has_provider) ≡ false)
        × (made address has_provider timeout tls ≡ c)
  unfolding new_dial_config with_tls
  with_tls-made address has_provider timeout tls c e =
      if_cases
        (λ (r : DialError E ⊎ DialConfig T).
          r ≡ inr c
          → ((is_empty address && not has_provider) ≡ false)
            × (made address has_provider timeout tls ≡ c))
        (is_empty address && not has_provider) (λ _ e'. absurd (inl-ne-inr e'))
        (λ n e'. (n, inr-injective _ _ e')) e

  -- Of an HTTP/2 connection with no transport given and a configuration that
  -- NewHTTP2DialConfigWithProvider made: it dials the address that was given or, where none was,
  -- the one that the provider names, with the TLS configuration and the timeout (10 seconds for
  -- 0); where the provider fails or names an empty address, it is given the pipe in memory, and no
  -- error.
  pub default_factory-new :
      (answer : E ⊎ Text) (address : Text) (has_provider : Bool) (timeout : ℕ) (tls : T)
      (c : DialConfig T)
      → new_dial_config (some (some tls)) address has_provider timeout ≡ inr c
      → default_factory answer none (some c)
        ≡ transport_of (dialed answer address) tls (effective_timeout timeout)
  default_factory-new answer address has_provider timeout tls c e =
      let (n, e') = with_tls-made address has_provider timeout tls c e in
      rw (sym e') (factory-made answer address has_provider timeout tls n)
