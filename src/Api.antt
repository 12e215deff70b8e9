-- ===== src/Api.antt =====
-- internal/cftunnel/api/client.go: the client of the quick tunnel service, with
-- defaultQuickTunnelReservation of internal/cftunnel/session_setup.go. The exchange of a request for
-- its answer, the JSON decoder, uuid.Parse and the timers are arguments. Strings are bytes,
-- as the answer's body is; what is said of spaces and case is so for ASCII. Times are in milliseconds.
pub mod Once
pub mod Attempts
pub mod Reserved
use mathlib.Core.List.{reverse}
use cf_tunnel.Prelude.{
  ℕ, suc, ◌==◌, Bool, true, false, ◌||◌, ◌&&◌, not, Option, none, some, List, [], ◌∷◌, ◌++◌, ltb,
  leb, if◌then◌else◌, length, take, Result, ok, err, guard, ◌>>=◌, ◌>>◌,
}
use cf_tunnel.Text.{Text, codes, is_empty, trim_left, trim_space, to_lower, has_prefix, contains}
use cf_tunnel.Session.{Credentials, Reservation, RuntimeConfig, no_bytes}

-- Client; the HTTP client is its one timeout.
pub record Client : Type 0 where
  pub base_url : Text
  pub user_agent : Text
  pub timeout : ℕ
  pub retry_backoffs : List ℕ

-- ClientOptions; a nil slice is `none`.
pub record ClientOptions : Type 0 where
  pub timeout : ℕ
  pub retry_backoffs : Option (List ℕ)

-- strings.TrimRight(s, "/")
unfoldable pub trim_slashes : Text → Text
trim_slashes s = reverse (trim_left (λ c. c == b'/') (reverse s))

-- NewClientWithOptions
unfoldable pub new_client : Text → Text → ClientOptions → Client
new_client base_url user_agent opts = record {
  base_url =
      if is_empty (trim_slashes base_url)
      then codes "https://api.trycloudflare.com"
      else trim_slashes base_url;
  user_agent = user_agent;
  timeout = if opts.timeout == 0 then 15000 else opts.timeout;
  retry_backoffs = elim opts.retry_backoffs [ none ↦ 500 ∷ 1500 ∷ [] | some bs ↦ bs ];
}

-- The http.Request of createQuickTunnelOnce.
pub record ApiRequest : Type 0 where
  pub method : Text
  pub url : Text
  pub header : List (Text × Text)

unfoldable pub tunnel_request : Client → ApiRequest
tunnel_request c = record {
  method = codes "POST";
  url = c.base_url ++ codes "/tunnel";
  header =
      (codes "Content-Type", codes "application/json")
      ∷ (if is_empty c.user_agent then [] else (codes "User-Agent", c.user_agent) ∷ []);
}

-- http.Response, with its body read.
pub record Reply : Type 0 where
  pub status_code : ℕ
  pub status : Text
  pub content_type : Text
  pub body : Text

-- Where a request for a tunnel ends before its answer is looked at.
pub data Exchange : Type 0 where
  not_built : Exchange
  not_requested : Exchange
  not_read : Exchange
  replied : Reply → Exchange

-- QuickTunnelError; the code is its text.
pub record QuickTunnelError : Type 0 where
  pub code : Text
  pub message : Text

-- QuickTunnel
pub record QuickTunnel : Type 0 where
  pub id : Text
  pub name : Text
  pub hostname : Text
  pub account_tag : Text
  pub secret : List ℕ

-- QuickTunnelResponse
pub record QuickTunnelResponse : Type 0 where
  pub success : Bool
  pub result : QuickTunnel
  pub errors : List QuickTunnelError

-- Why no tunnel was created. The texts name what the message quotes: status, content type and the
-- snippet of the body.
pub data ApiError : Type 0 where
  request_not_built : ApiError
  request_failed : ApiError
  body_not_read : ApiError
  rate_limited : Text → Text → Text → ApiError
  bad_status : Text → Text → Text → ApiError
  not_decoded : Text → Text → Text → ApiError
  no_details : Text → Text → Text → ApiError
  refused : List Text → Text → Text → Text → ApiError
  missing_id : ApiError
  missing_hostname : ApiError
  missing_account : ApiError
  missing_secret : ApiError
  bad_id : ApiError
  retry_canceled : ApiError

-- snippet: at most 200 bytes.
unfoldable pub snippet : Text → Text
snippet body =
    if leb (length (trim_space body)) 200
    then trim_space body
    else take 200 (trim_space body) ++ codes "..."

-- isRateLimited
unfoldable pub is_rate_limited : ℕ → Text → Bool
is_rate_limited status_code body =
    status_code == 429 || contains (to_lower body) (codes "error code: 1015")

-- responseError
unfoldable pub error_parts : List QuickTunnelError → List Text
error_parts [] = []
error_parts (item ∷ items) = (item.code ++ b':' ∷ item.message) ∷ error_parts items

unfoldable pub response_error : Reply → List QuickTunnelError → ApiError
unfolding error_parts
response_error r [] = no_details r.status r.content_type (snippet r.body)
response_error r (item ∷ items) =
    refused (error_parts (item ∷ items)) r.status r.content_type (snippet r.body)

-- The `url` of a reservation.
unfoldable pub public_url : Text → Text
public_url hostname =
    if has_prefix hostname (codes "https://") then hostname else codes "https://" ++ hostname

-- errors.As(err, &rlErr), IsRateLimitedError
unfoldable pub is_rate_limited_error : ApiError → Bool
is_rate_limited_error (rate_limited s c b) = true
is_rate_limited_error request_not_built = false
is_rate_limited_error request_failed = false
is_rate_limited_error body_not_read = false
is_rate_limited_error (bad_status s c b) = false
is_rate_limited_error (not_decoded s c b) = false
is_rate_limited_error (no_details s c b) = false
is_rate_limited_error (refused ps s c b) = false
is_rate_limited_error missing_id = false
is_rate_limited_error missing_hostname = false
is_rate_limited_error missing_account = false
is_rate_limited_error missing_secret = false
is_rate_limited_error bad_id = false
is_rate_limited_error retry_canceled = false

module _ (decode : Text → Option QuickTunnelResponse) (parse_uuid : Text → Option Text) where
  -- createQuickTunnelOnce, on the tunnel of an answer that succeeded
  unfoldable pub reservation_of : QuickTunnel → Result ApiError Reservation
  reservation_of tunnel = do
    guard (not (is_empty tunnel.id)) missing_id
    guard (not (is_empty tunnel.hostname)) missing_hostname
    guard (not (is_empty tunnel.account_tag)) missing_account
    guard (not (no_bytes tunnel.secret)) missing_secret
    elim (parse_uuid tunnel.id) [
      | none ↦ err bad_id
      | some tunnel_id ↦ ok (record {
        credentials = record {
          account_tag = tunnel.account_tag;
          tunnel_secret = tunnel.secret;
          tunnel_id = tunnel_id;
          endpoint = [];
        };
        hostname = tunnel.hostname;
        url = public_url tunnel.hostname;
      })
    ]

  -- createQuickTunnelOnce, from json.Unmarshal on
  unfoldable pub read_body : Reply → Result ApiError Reservation
  read_body r = elim (decode r.body) [
    | none ↦ err (not_decoded r.status r.content_type (snippet r.body))
    | some parsed ↦
        if parsed.success
        then reservation_of parsed.result
        else err (response_error r parsed.errors)
  ]

  -- createQuickTunnelOnce, behind the request
  unfoldable pub read_reply : Reply → Result ApiError Reservation
  read_reply r =
      if is_rate_limited r.status_code r.body
      then err (rate_limited r.status r.content_type (snippet r.body))
      else if ltb r.status_code 200 || leb 300 r.status_code
      then err (bad_status r.status r.content_type (snippet r.body))
      else read_body r

  -- createQuickTunnelOnce
  unfoldable pub create_once : Exchange → Result ApiError Reservation
  create_once not_built = err request_not_built
  create_once not_requested = err request_failed
  create_once not_read = err body_not_read
  create_once (replied r) = read_reply r

-- The loop of CreateQuickTunnel, from an attempt on, with the backoffs that are left. `fires` says
-- whether the timer behind an attempt fires before the context is done.
unfoldable pub attempts :
    (ℕ → Result ApiError Reservation) → (ℕ → Bool) → List ℕ → ℕ → Result ApiError Reservation
attempts once fires [] attempt = once attempt
attempts once fires (backoff ∷ backoffs) attempt = elim (once attempt) [
  | ok reservation ↦ ok reservation
  | err e ↦ if not (is_rate_limited_error e) then err e else elim (fires attempt) [
    | true ↦ attempts once fires backoffs (suc attempt)
    | false ↦ err retry_canceled
  ]
]

module _ (decode : Text → Option QuickTunnelResponse) (parse_uuid : Text → Option Text)
    (exchange : ApiRequest → ℕ → Exchange) (fires : ℕ → Bool) where
  -- CreateQuickTunnel
  unfoldable pub create_quick_tunnel : Client → Result ApiError Reservation
  create_quick_tunnel c =
      attempts (λ i. create_once decode parse_uuid (exchange (tunnel_request c) i)) fires
        c.retry_backoffs 0

  -- defaultQuickTunnelReservation; the reservation is never nil.
  unfoldable pub default_reservation : Text → RuntimeConfig → Result ApiError (Option Reservation)
  default_reservation user_agent cfg = do
    r ← create_quick_tunnel (
        new_client cfg.quick_service user_agent (record {
          timeout = cfg.quick_service_timeout;
          retry_backoffs = some cfg.retry_backoffs;
        }))
    ok (some r)
