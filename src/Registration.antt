-- ===== src/Registration.antt =====
-- How a connection registers with the edge: internal/cftunnel/runtime/connection_options_runtime.go,
-- tunnel_identity.go, the registration of quic_protocol.go with registration_client.go, and
-- capnp_transport.go. Remote calls, random bytes and UUIDs' texts are arguments.
pub mod Control
pub mod Ends
pub mod Retries
use cf_tunnel.Prelude.{
  ℕ, zero, suc, ◌==◌, ◌≡◌, Bool, true, false, ◌&&◌, not, Option, none, some, List, [], ◌∷◌, ◌++◌,
  leb, if◌then◌else◌, length, Result, ok, err, ◌>>=◌, ℤ, arith, Option-cases, inl, inr,
}
use cf_tunnel.Text.{Text, codes}
use cf_tunnel.Session.{Credentials, no_bytes}

-- runtimeClientInfo
pub record ClientInfo : Type 0 where
  pub client_id : List ℕ
  pub version : Text
  pub arch : Text
  pub features : List Text

-- runtimeConnectionOptionsSnapshot
pub record OptionsSnapshot : Type 0 where
  pub client : ClientInfo
  pub origin_local_ip : List ℕ
  pub num_previous_attempts : ℕ

-- runtimeConnectionOptions
pub record ConnectionOptions : Type 0 where
  pub client : ClientInfo
  pub origin_local_ip : List ℕ
  pub replace_existing : Bool
  pub compression_quality : ℕ
  pub num_previous_attempts : ℕ

pub data OptionsError : Type 0 where
  no_random : OptionsError
  bad_length : ℕ → OptionsError

-- newRuntimeConnectorID; `random` is what rand.Read fills so many bytes with, or fails.
unfoldable pub new_connector_id : (ℕ → Option (List ℕ)) → Result OptionsError (List ℕ)
new_connector_id random = elim (random 16) [ none ↦ err no_random | some bytes ↦ ok bytes ]

-- newRuntimeConnectionOptions; `arch` is the platform's.
unfoldable pub new_connection_options :
    (ℕ → Option (List ℕ)) → Text → List ℕ → Result OptionsError OptionsSnapshot
new_connection_options random arch connector_id = do
  client_id ← if no_bytes connector_id then new_connector_id random else ok connector_id
  if length client_id == 16
      then ok (record {
        client = record {
          client_id = client_id;
          version = codes "2026.7.3";
          arch = arch;
          features =
              codes "allow_remote_config"
              ∷ codes "serialized_headers"
              ∷ codes "support_datagram_v2"
              ∷ codes "support_quic_eof"
              ∷ codes "management_logs"
              ∷ [];
        };
        origin_local_ip = [];
        num_previous_attempts = 0;
      })
      else err (bad_length (length client_id))

-- ConnectionOptions
unfoldable pub connection_options : OptionsSnapshot → ConnectionOptions
connection_options c = record {
  client = c.client;
  origin_local_ip = c.origin_local_ip;
  replace_existing = false;
  compression_quality = 0;
  num_previous_attempts = c.num_previous_attempts;
}

-- runtimeTunnelAuth
pub record TunnelAuth : Type 0 where
  pub account_tag : Text
  pub tunnel_secret : List ℕ

-- RuntimeCredentials.Auth
unfoldable pub auth : Credentials → TunnelAuth
auth c = record { account_tag = c.account_tag; tunnel_secret = c.tunnel_secret }

-- runtimeConnectionDetails
pub record ConnectionDetails : Type 0 where
  pub uuid : List ℕ
  pub location : Text
  pub is_remotely_managed : Bool

-- The accessors of proto.ConnectionDetails.
pub record DetailsReader (E : Type 0) : Type 0 where
  pub uuid_bytes : Result E (List ℕ)
  pub location_name : Result E Text
  pub remotely_managed : Bool

pub data RegisterError (E : Type 0) : Type 0 where
  rpc_failed : E → RegisterError E
  bad_uuid : RegisterError E
  unknown_result : ℕ → RegisterError E
  refused : Text → RegisterError E
  retry_after : Text → ℤ → RegisterError E

-- wrapRuntimeRPCError, of an error that is there
unfoldable pub rpc_result : {E A : Type 0} → Result E A → Result (RegisterError E) A
rpc_result (ok a) = ok a
rpc_result (err e) = err (rpc_failed e)

-- runtimeConnectionDetails.unmarshalCapnproto, with uuid.FromBytes, which takes 16 bytes.
unfoldable pub read_details :
    {E : Type 0} → DetailsReader E → Result (RegisterError E) ConnectionDetails
unfolding rpc_result
read_details s = do
  bytes ← rpc_result s.uuid_bytes
  if length bytes == 16
      then (rpc_result s.location_name >>= λ location.
          ok (record {
            uuid = bytes;
            location = location;
            is_remotely_managed = s.remotely_managed;
          }))
      else err bad_uuid

-- The union of a ConnectionResponse, as its accessors give it.
pub data ResponseReader (E : Type 0) : Type 0 where
  error_case : Result E (Result E Text × Bool × ℤ) → ResponseReader E
  details_case : Result E (DetailsReader E) → ResponseReader E
  unknown_case : ℕ → ResponseReader E

-- runtimeRegistrationServerPogsClient.RegisterConnection, from the answer on
unfoldable pub read_response :
    {E : Type 0} → Result E (ResponseReader E) → Result (RegisterError E) ConnectionDetails
unfolding rpc_result read_details
read_response (err e) = err (rpc_failed e)
read_response (ok (error_case (err e))) = err (rpc_failed e)
read_response (ok (error_case (ok (err e, should_retry, delay)))) = err (rpc_failed e)
read_response (ok (error_case (ok (ok cause, should_retry, delay)))) =
    if should_retry then err (retry_after cause delay) else err (refused cause)
read_response (ok (details_case (err e))) = err (rpc_failed e)
read_response (ok (details_case (ok details))) = read_details details
read_response (ok (unknown_case k)) = err (unknown_result k)

-- A connector id that is accepted has 16 bytes, and is the one that was given unless that was empty.
pub new_connection_options_lem :
    (random : ℕ → Option (List ℕ)) (arch : Text) (connector_id : List ℕ) (s : OptionsSnapshot)
    → new_connection_options random arch connector_id ≡ ok s
    → (length (connection_options s).client.client_id ≡ 16)
      × (no_bytes connector_id ≡ false → (connection_options s).client.client_id ≡ connector_id)
unfolding new_connection_options new_connector_id connection_options
new_connection_options_lem random arch connector_id s h = elim (Option-cases (random 16)) [
  | inl e ↦ ground arith
  | inr (bytes, e) ↦ ground arith
]
