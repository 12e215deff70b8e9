-- ===== src/Examples/Service.antt =====
-- The quick tunnel service, the registration of a connection and the relay of a TCP stream at concrete
-- answers and streams.
use cf_tunnel.Prelude.{
  ℕ, ◌≤◌, ◌≡◌, ◌⊎◌, Bool, true, false, Option, none, some, [], ◌∷◌, length, ok, err, arith,
}
use cf_tunnel.Text.{Text, codes, is_empty, has_prefix}
use cf_tunnel.Session.Prepared.{
  Prepared, no_reservation, reserve_error, prepare_quick_tunnel_session_from_runtime,
}
use cf_tunnel.Api.{
  QuickTunnelResponse, ApiRequest, Exchange, ApiError, Client, replied, is_rate_limited_error,
  create_once, tunnel_request, create_quick_tunnel, default_reservation,
}
use cf_tunnel.Api.Attempts.{AreRetried, IsEnd, create_quick_tunnel-attempts}
use cf_tunnel.Api.Reserved.{prepared_or_unreserved}
use cf_tunnel.Http2.Serve.{stopped}
use cf_tunnel.Registration.Ends.{due, serve_at-due}
use cf_tunnel.Registration.Control.{Outside, graceful_shutdown, serve_at, ended}
use cf_tunnel.Upstream.Tcp.{Source, more, ends, Taken, copy_stream}
use cf_tunnel.Upstream.Tcp.Faithful.{IsFaithful, content, end_of, copy-IsFaithful}
use cf_tunnel.Examples.Start.{runtime_config}

abbrev tunnel_response : QuickTunnelResponse
tunnel_response = record {
  success = true;
  result = record {
    id = codes "id";
    name = codes "n";
    hostname = codes "a.trycloudflare.com";
    account_tag = codes "acc";
    secret = 1 ∷ [];
  };
  errors = [];
}

abbrev decode : Text → Option QuickTunnelResponse
decode body = some tunnel_response

abbrev parse_uuid : Text → Option Text
parse_uuid t = some (codes "uuid")

-- Always busy.
abbrev exchange : ApiRequest → ℕ → Exchange
exchange r i = replied (record {
  status_code = 429;
  status = codes "429 Too Many Requests";
  content_type = [];
  body = [];
})

abbrev fires : ℕ → Bool
fires i = true

abbrev api_client : Client
api_client = record {
  base_url = codes "https://api.example";
  user_agent = [];
  timeout = 15000;
  retry_backoffs = 500 ∷ 1500 ∷ [];
}

create_quick_tunnel-attempts_example :
    (n : ℕ) × (n ≤ 2)
    × AreRetried
        (λ i. create_once decode parse_uuid (exchange (tunnel_request api_client) i))
        fires
        0
        n
    × IsEnd
        (λ i. create_once decode parse_uuid (exchange (tunnel_request api_client) i))
        fires
        (create_quick_tunnel decode parse_uuid exchange fires api_client)
        (500 ∷ 1500 ∷ [])
        n
create_quick_tunnel-attempts_example =
    create_quick_tunnel-attempts decode parse_uuid exchange fires api_client

abbrev never_canceled : ApiError → Bool
never_canceled e = false

uuid_full : (id t : Text) → parse_uuid id ≡ some t → is_empty t ≡ false
uuid_full id t e = ground arith

prepared_or_unreserved_example :
    ((p : Prepared) × (prepare_quick_tunnel_session_from_runtime is_rate_limited_error
          never_canceled runtime_config
          (default_reservation decode parse_uuid exchange fires [])
        ≡ ok p)
      × (has_prefix p.session.public_url (codes "https://") ≡ true))
    ⊎ ((e : ApiError) × (prepare_quick_tunnel_session_from_runtime is_rate_limited_error
            never_canceled runtime_config
            (default_reservation decode parse_uuid exchange fires [])
          ≡ err (no_reservation (reserve_error is_rate_limited_error never_canceled e))))
prepared_or_unreserved_example =
    prepared_or_unreserved decode parse_uuid exchange fires never_canceled [] runtime_config
      uuid_full

abbrev outside : Outside ℕ
outside = record {
  registration = ok (record { uuid = []; location = codes "ams"; is_remotely_managed = false });
  config_json = some (codes "{}");
  wake = graceful_shutdown;
  unregistration = some 3;
}

serve_at-due_example : serve_at ended outside 0 ≡ stopped
unfolding due
serve_at-due_example = serve_at-due ended outside 0

-- A writer that takes all that it is given.
abbrev takes_all : Text → Text → Taken ℕ
takes_all before p = record { count = length p; error = none }

takes_all-bounded : (before p : Text) → (takes_all before p).count ≤ length p
takes_all-bounded before p = omega arith

abbrev source : Source ℕ
source = more (codes "ab") (more [] (ends (codes "c") none))

copy-IsFaithful_example :
    IsFaithful [] 0 (content source) (end_of source) (copy_stream takes_all [] 0 source)
copy-IsFaithful_example = copy-IsFaithful takes_all takes_all-bounded [] 0 source
