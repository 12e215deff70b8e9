-- ===== src/Origin/Forward.antt =====
-- internal/cftunnel/origin/proxy.go: how a request is rewritten before it goes to the origin. A
-- header is an association list under canonical names, with the first value of each; netip.ParseAddr
-- and Addr.String are one argument, which gives an address in its canonical text.
pub mod Chain
pub mod Headers
use cf_tunnel.Prelude.{
  Bool, true, false, ◌&&◌, not, Option, none, some, List, [], ◌∷◌, if◌then◌else◌, ◌==◌,
}
use cf_tunnel.Text.{Text, codes, text_eq, is_empty, trim_space, to_lower, split, join}
use cf_tunnel.Origin.{Target}

-- http.Header
abbrev pub Header : Type 0
Header = List (Text × Text)

-- Header.Get; "" for a name that is not there.
unfoldable pub get_header : Text → Header → Text
get_header k [] = []
get_header k ((j, v) ∷ h) = if text_eq j k then v else get_header k h

-- Header.Del
unfoldable pub del_header : Text → Header → Header
del_header k [] = []
del_header k ((j, v) ∷ h) = let rest = del_header k h in if text_eq j k then rest else (j, v) ∷ rest

-- Header.Set
unfoldable pub set_header : Text → Text → Header → Header
unfolding del_header
set_header k v h = (k, v) ∷ del_header k h

abbrev pub connecting_ip : Text
connecting_ip = codes "Cf-Connecting-Ip"

abbrev pub real_ip : Text
real_ip = codes "X-Real-Ip"

abbrev pub forwarded_for : Text
forwarded_for = codes "X-Forwarded-For"

abbrev pub forwarded_host : Text
forwarded_host = codes "X-Forwarded-Host"

abbrev pub forwarded_proto : Text
forwarded_proto = codes "X-Forwarded-Proto"

-- The parts of a request that rewriteRequest reads and writes.
pub record Request : Type 0 where
  pub host : Text
  pub url_scheme : Text
  pub url_host : Text
  pub header : Header

-- The `switch` of rewriteRequest.
unfoldable pub rewritten_host : Text → Target → Text
rewritten_host original target =
    if target.pass_host_header && not (is_empty original)
    then original
    else if not (is_empty target.server_name)
    then target.server_name
    else target.url.host

-- rewriteRequest
unfoldable pub rewrite_request : Request → Target → Request
unfolding rewritten_host
rewrite_request req target = record req {
  host = rewritten_host req.host target;
  url_scheme = target.url.scheme;
  url_host = target.url.host;
  header =
      set_header forwarded_proto (codes "https")
        (if is_empty req.host then req.header else set_header forwarded_host req.host req.header);
}

-- What strings.EqualFold takes for an s or a k beside their capitals: U+017F and U+212A. No other
-- letter of "websocket" has such a code point.
unfoldable pub fold_letters : Text → Text
fold_letters [] = []
fold_letters (c ∷ s) =
    (if c == 0x17f then b's' else if c == 0x212a then b'k' else c) ∷ fold_letters s

-- isWebsocketUpgrade
unfoldable pub is_websocket_upgrade : Header → Bool
unfolding fold_letters
is_websocket_upgrade h =
    text_eq (to_lower (fold_letters (get_header (codes "Upgrade") h))) (codes "websocket")

-- normalizeForwardedChain
unfoldable pub others : Text → List Text → List Text
others client [] = []
others client (ip ∷ chain) =
    let rest = others client chain in
    if is_empty ip then rest else if text_eq ip client then rest else ip ∷ rest

unfoldable pub normalize_forwarded_chain : Text → List Text → List Text
unfolding others
normalize_forwarded_chain client chain =
    if is_empty client then [] else client ∷ others client chain

module _ (parse_addr : Text → Option Text) where
  -- normalizeIP
  unfoldable pub normalize_ip : Text → Text
  normalize_ip raw =
      if is_empty (trim_space raw)
      then []
      else elim (parse_addr (trim_space raw)) [ none ↦ [] | some s ↦ s ]

  unfoldable pub normalize_parts : List Text → List Text
  normalize_parts [] = []
  normalize_parts (part ∷ parts) =
      let rest = normalize_parts parts in
      if is_empty (normalize_ip part) then rest else normalize_ip part ∷ rest

  -- parseForwardedChain
  unfoldable pub parse_forwarded_chain : Text → List Text
  parse_forwarded_chain raw = normalize_parts (split b',' raw)

  -- The second and third source of forwardedClientIP.
  unfoldable pub client_of_chain : List Text → Header → Text × List Text
  client_of_chain (first ∷ chain) h = (first, normalize_forwarded_chain first (first ∷ chain))
  client_of_chain [] h =
      let ip = normalize_ip (get_header real_ip h) in
      if is_empty ip then ([], []) else (ip, ip ∷ [])

  -- forwardedClientIP
  unfoldable pub forwarded_client_ip : Header → Text × List Text
  forwarded_client_ip h =
      let ip = normalize_ip (get_header connecting_ip h) in
      let chain = parse_forwarded_chain (get_header forwarded_for h) in
      if is_empty ip then client_of_chain chain h else (ip, normalize_forwarded_chain ip chain)

  -- applyForwardedClientIPHeaders: the header of the outgoing request from both headers.
  unfoldable pub apply_forwarded : Header → Header → Header
  apply_forwarded out inbound =
      let (client, chain) = forwarded_client_ip inbound in
      if is_empty client
      then del_header forwarded_for (del_header real_ip (del_header connecting_ip out))
      else set_header forwarded_for (join (codes ", ") chain)
          (set_header real_ip client (set_header connecting_ip client out))

  -- The `rewrite` of NewProxy: rewriteRequest on the outgoing request that the reverse proxy hands
  -- over, then applyForwardedClientIPHeaders with the header of the inbound one.
  unfoldable pub rewrite : Target → Request → Header → Request
  rewrite target out inbound =
      let out' = rewrite_request out target in
      record out' { header = apply_forwarded out'.header inbound }

-- What Proxy.ServeHTTP does with a request.
pub data Handling : Type 0 where
  websocket reverse_proxy : Handling

unfoldable pub handling : Target → Header → Handling
handling target h =
    if target.websocket_upgrade_mode && is_websocket_upgrade h then websocket else reverse_proxy
