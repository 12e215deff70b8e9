-- ===== src/Origin/Forward/Headers.antt =====
-- internal/cftunnel/origin/proxy.go: what an origin sees of the client's address.
use cf_tunnel.Prelude.{◌≡◌, Option, none, some, List, [], ◌∷◌, if◌then◌else◌, arith}
use cf_tunnel.Text.{Text, codes, text_eq, is_empty, join}
use cf_tunnel.Text.Laws.{text_eq_iff}
use cf_tunnel.Origin.{Target}
use cf_tunnel.Origin.Forward.Chain.{Trusted, nobody, client, forwarded_client_ip-Trusted}
use cf_tunnel.Origin.Forward.{
  Header, Request, get_header, del_header, set_header, connecting_ip, real_ip, forwarded_for,
  forwarded_client_ip, apply_forwarded, rewrite, rewrite_request,
}

pub get-del :
    (k j : Text) (h : Header)
    → get_header j (del_header k h) ≡ (if text_eq k j then [] else get_header j h)
unfolding get_header del_header
get-del k j [] = ground arith
get-del k j ((i, v) ∷ h) =
    ground (arith, get-del k j h, text_eq_iff i k, text_eq_iff i j, text_eq_iff k j)

pub get-set :
    (k j v : Text) (h : Header)
    → get_header j (set_header k v h) ≡ (if text_eq k j then v else get_header j h)
unfolding set_header get_header
get-set k j v h = ground (arith, get-del k j h)

-- The value of a name, where the header has it.
unfoldable pub value_of : Text → Header → Option Text
value_of k [] = none
value_of k ((j, v) ∷ h) = if text_eq j k then some v else value_of k h

value_of-del :
    (k j : Text) (h : Header)
    → value_of j (del_header k h) ≡ (if text_eq k j then none else value_of j h)
unfolding value_of del_header
value_of-del k j [] = ground arith
value_of-del k j ((i, v) ∷ h) =
    ground (arith, value_of-del k j h, text_eq_iff i k, text_eq_iff i j, text_eq_iff k j)

value_of-set :
    (k j v : Text) (h : Header)
    → value_of j (set_header k v h) ≡ (if text_eq k j then some v else value_of j h)
unfolding set_header value_of
value_of-set k j v h = ground (arith, value_of-del k j h)

-- A header that is there if there is a client.
abbrev pub if_client : Text → Text → Option Text
if_client ip v = if is_empty ip then none else some v

module _ (parse_addr : Text → Option Text) where
  abbrev client_headers : Text × List Text → Header → Header
  client_headers x out =
      if is_empty x.0
      then del_header forwarded_for (del_header real_ip (del_header connecting_ip out))
      else set_header forwarded_for (join (codes ", ") x.1)
          (set_header real_ip x.0 (set_header connecting_ip x.0 out))

  client_headers_lem :
      (x : Text × List Text) (out : Header) (k : Text)
      → Trusted parse_addr x
      → value_of k (client_headers x out) ≡ (
          if text_eq forwarded_for k
          then if_client x.0 (join (codes ", ") x.1)
          else if text_eq real_ip k
          then if_client x.0 x.0
          else if text_eq connecting_ip k
          then if_client x.0 x.0
          else value_of k out)
  client_headers_lem x out k nobody = simp value_of-del (ground arith)
  client_headers_lem x out k (client ip rest p q) = rw p.0 (simp value_of-set (ground arith))

  -- Whatever addresses the inbound request claims, three headers of the outgoing one agree: each
  -- is there with the client's address, the last with the chain behind it, or each is absent, not
  -- even there with an empty value, where forwardedClientIP found no client; every other header is
  -- as rewriteRequest left it, there or not.
  pub rewrite_headers :
      (target : Target) (out : Request) (inbound : Header) (k : Text)
      → let (ip, chain) = forwarded_client_ip parse_addr inbound in
        value_of k (rewrite parse_addr target out inbound).header ≡ (
          if text_eq forwarded_for k
          then if_client ip (join (codes ", ") chain)
          else if text_eq real_ip k
          then if_client ip ip
          else if text_eq connecting_ip k
          then if_client ip ip
          else value_of k (rewrite_request out target).header)
  unfolding rewrite apply_forwarded
  rewrite_headers target out inbound k =
      client_headers_lem (forwarded_client_ip parse_addr inbound)
        (rewrite_request out target).header k (forwarded_client_ip-Trusted parse_addr inbound)
