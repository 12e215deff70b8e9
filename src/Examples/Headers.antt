-- ===== src/Examples/Headers.antt =====
-- Client addresses at concrete headers.
use cf_tunnel.Prelude.{◌≡◌, Option, List, some, [], ◌∷◌, if◌then◌else◌, false}
use cf_tunnel.Text.{Text, codes, text_eq, join}
use cf_tunnel.Origin.{Target, http}
use cf_tunnel.Origin.Forward.{
  Header, Request, rewrite_request, rewrite, forwarded_client_ip, forwarded_for, real_ip,
  connecting_ip,
}
use cf_tunnel.Origin.Forward.Chain.{Trusted, forwarded_client_ip-Trusted}
use cf_tunnel.Origin.Forward.Headers.{rewrite_headers, value_of, if_client}

-- Every text is the canonical text of an address.
abbrev any_addr : Text → Option Text
any_addr t = some t

abbrev inbound : Header
inbound = (forwarded_for, codes "1,2") ∷ (connecting_ip, codes "9") ∷ []

abbrev target : Target
target = record {
  raw = codes "http://d";
  protocol = http;
  url = record { scheme = codes "http"; host = codes "d"; text = codes "http://d" };
  server_name = [];
  insecure_skip_verify = false;
  pass_host_header = false;
  websocket_upgrade_mode = false;
}

abbrev request : Request
request = record { host = codes "h"; url_scheme = []; url_host = []; header = inbound }

forwarded_client_ip-Trusted_example : Trusted any_addr (forwarded_client_ip any_addr inbound)
forwarded_client_ip-Trusted_example = forwarded_client_ip-Trusted any_addr inbound

abbrev ip : Text
ip = (forwarded_client_ip any_addr inbound).0

abbrev chain : List Text
chain = (forwarded_client_ip any_addr inbound).1

rewrite_headers_example : value_of real_ip (rewrite any_addr target request inbound).header ≡ (
    if text_eq forwarded_for real_ip
    then if_client ip (join (codes ", ") chain)
    else if text_eq real_ip real_ip
    then if_client ip ip
    else if text_eq connecting_ip real_ip
    then if_client ip ip
    else value_of real_ip (rewrite_request request target).header)
rewrite_headers_example = rewrite_headers any_addr target request inbound real_ip
