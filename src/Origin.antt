-- ===== src/Origin.antt =====
-- internal/cftunnel/origin/target.go: the target that requests are proxied to.
pub mod Router
pub mod RoutedProxy
pub mod Forward
use cf_tunnel.Prelude.{
  Bool, true, false, ◌||◌, Option, none, some, Result, ok, err, guard, ◌>>=◌, ◌>>◌, not,
  if◌then◌else◌, wrap,
}
use cf_tunnel.Text.{Text, codes, text_eq, is_empty}
use cf_tunnel.Config.{Url, ParseUrl}

pub data Protocol : Type 0 where
  http https ws wss : Protocol

pub record Target : Type 0 where
  pub raw : Text
  pub protocol : Protocol
  pub url : Url
  pub server_name : Text
  pub insecure_skip_verify : Bool
  pub pass_host_header : Bool
  pub websocket_upgrade_mode : Bool

pub data TargetError : Type 0 where
  empty_target bad_url not_full : TargetError
  unsupported_scheme : Text → TargetError

-- resolveProtocol
unfoldable pub resolve_protocol : Text → Result TargetError Protocol
resolve_protocol v =
    if text_eq v (codes "http")
    then ok http
    else if text_eq v (codes "https")
    then ok https
    else if text_eq v (codes "ws")
    then ok ws
    else if text_eq v (codes "wss")
    then ok wss
    else err (unsupported_scheme v)

-- schemeForProtocol
abbrev pub scheme_for_protocol : Protocol → Text
scheme_for_protocol ws = codes "http"
scheme_for_protocol wss = codes "https"
scheme_for_protocol http = codes "http"
scheme_for_protocol https = codes "https"

abbrev pub is_websocket : Protocol → Bool
is_websocket ws = true
is_websocket wss = true
is_websocket _ = false

-- url.URL's String() after the scheme was replaced is a function of the URL and the new scheme.
abbrev pub SetScheme : Type 0
SetScheme = Url → Text → Text

module _ (parse_url : ParseUrl) (set_scheme : SetScheme) where
  -- normalizeURL
  unfoldable pub normalize_url : Url → Protocol → Url
  normalize_url u p = record u {
    scheme = scheme_for_protocol p;
    text = set_scheme u (scheme_for_protocol p);
  }

  -- ParseTarget
  unfoldable pub parse_target : Text → Text → Bool → Bool → Result TargetError Target
  unfolding resolve_protocol normalize_url
  parse_target raw_target server_name insecure_skip_verify pass_host_header =
      if is_empty raw_target then err empty_target else elim (parse_url raw_target) [
        | none ↦ err bad_url
        | some u ↦ do
          guard (not (is_empty u.scheme || is_empty u.host)) not_full
          proto ← resolve_protocol u.scheme
          ok (record {
            raw = raw_target;
            protocol = proto;
            url = normalize_url u proto;
            server_name = server_name;
            insecure_skip_verify = insecure_skip_verify;
            pass_host_header = pass_host_header;
            websocket_upgrade_mode = is_websocket proto;
          })
      ]
