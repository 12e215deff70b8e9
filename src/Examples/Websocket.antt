-- ===== src/Examples/Websocket.antt =====
-- A websocket over HTTP/2 whose origin cannot be reached.
use cf_tunnel.Prelude.{ℕ, ◌≡◌, refl, ◌⊎◌, inl, true, false, none, some, [], ◌∷◌}
use cf_tunnel.Text.{codes, text_eq}
use cf_tunnel.Wire.{Fields}
use cf_tunnel.Origin.{Target, http}
use cf_tunnel.Origin.Forward.{Request, get_header}
use cf_tunnel.Upstream.{upgrade_header}
use cf_tunnel.Http2.{wrote, determine_type, websocket}
use cf_tunnel.Http2.Writer.{heads}
use cf_tunnel.Http2.Serve.{Handlers, serve_http, http_failed}
use cf_tunnel.Http2.Websocket.{OriginReply, WebsocketError, not_reached, proxy_http}
use cf_tunnel.Http2.Websocket.Once.{answered_once, EndsWith, seen_status, failure_of}

abbrev upgraded : Request
upgraded = record {
  host = codes "a.example";
  url_scheme = [];
  url_host = [];
  header = (upgrade_header, codes "websocket") ∷ [];
}

abbrev origin : Target
origin = record {
  raw = codes "http://d";
  protocol = http;
  url = record { scheme = codes "http"; host = codes "d"; text = codes "http://d" };
  server_name = [];
  insecure_skip_verify = false;
  pass_host_header = false;
  websocket_upgrade_mode = false;
}

-- The origin is asked for a websocket and cannot be reached.
abbrev refused : Request → ℕ ⊎ OriginReply ℕ
refused r = inl 7

abbrev websocket_handlers : Handlers (WebsocketError ℕ)
websocket_handlers = record {
  control = ([], none);
  decode_update = λ r. none;
  encode_response = λ v. none;
  taken = λ p. wrote;
  proxy_http = λ r websocket. proxy_http origin refused r;
  proxy_tcp = λ t r. ([], none);
  is_too_many = λ e. false;
}

upgraded_lem : determine_type upgraded.header ≡ websocket
unfolding determine_type get_header text_eq
upgraded_lem = refl

answered_once_example :
    ((dest : Fields) × (heads (serve_http websocket_handlers 0 upgraded).writer.events
        ≡ (502, dest) ∷ []))
    × (((serve_http websocket_handlers 0 upgraded).aborted ≡ true)
        × ((serve_http websocket_handlers 0 upgraded).request_error
            ≡ some (http_failed (not_reached 7))))
unfolding seen_status failure_of EndsWith
answered_once_example =
    answered_once websocket_handlers origin refused 0 upgraded (λ r. refl) upgraded_lem
