-- ===== src/Bridge/Fuses.antt =====
-- internal/cftunnel/runtime/runner.go: the fuses that a connection blows once the edge accepted it,
-- connectedSignalFuse and connectTrackingFuse, and which one an instance gets. Of the fuses that the
-- options hold there are noopConnectedFuse and the readiness of internal/cftunnel/runner.go; `nil`
-- is a nil delegate.
use cf_tunnel.Prelude.{
  ℕ, ◌≡◌, ◌==◌, Bool, true, false, ◌||◌, ◌&&◌, not, Option, none, some, arith, if◌then◌else◌,
}

pub data Fuse : Type 0 where
  nil noop readiness : Fuse
  tracking signal : Fuse → Fuse

-- Whether the readiness was set, the channel firstConnected is closed, and the tracker was told.
pub record Flags : Type 0 where
  pub ready : Bool
  pub first_connected : Bool
  pub tracked : Bool

-- Connected
unfoldable pub connected : Fuse → Flags → Flags
connected nil s = s
connected noop s = s
connected readiness s = record s { ready = true }
connected (tracking d) s = connected d (record s { tracked = true })
connected (signal d) s = let s' = connected d s in record s' { first_connected = true }

-- IsConnected
unfoldable pub is_connected : Fuse → Flags → Bool
is_connected nil s = false
is_connected noop s = false
is_connected readiness s = s.ready
is_connected (tracking nil) s = s.tracked
is_connected (tracking d) s = is_connected d s
is_connected (signal d) s = is_connected d s

-- activeConnectedFuse, on the fuses of the HTTP/2 and of the QUIC options
unfoldable pub active_connected_fuse : Option Fuse → Option Fuse → Fuse
active_connected_fuse (some f) quic = f
active_connected_fuse none (some f) = f
active_connected_fuse none none = noop

-- The extraFuse of runConnectionWithRetry: Run passes nil for the only connection, and
-- runHAConnections one for the first.
unfoldable pub extra_fuse : Fuse → ℕ → ℕ → Fuse
extra_fuse active ha_connections conn_index =
    if ha_connections == 1 then nil else if conn_index == 0 then signal active else nil

-- The fuse in the options that runConnectionWithConnectedFuse builds an instance with.
unfoldable pub instance_fuse : Fuse → Option Fuse → Fuse
instance_fuse nil (some f) = f
instance_fuse nil none = nil
instance_fuse f option = f

-- The fuse of a connection whose options hold `http2` and `quic`, in a group of that many.
unfoldable pub connection_fuse : Option Fuse → Option Fuse → ℕ → ℕ → Fuse
unfolding active_connected_fuse extra_fuse instance_fuse
connection_fuse http2 quic ha_connections conn_index =
    instance_fuse
      (tracking (extra_fuse (active_connected_fuse http2 quic) ha_connections conn_index)) http2

-- With the readiness in the options, as the tunnel's Run sets them, a connection that the edge
-- accepts sets the readiness if and only if it is connection 0 of a group of more than one: with a
-- single connection nothing ever does. The tracker is told in every case.
pub connected-connection_fuse :
    (ha_connections conn_index : ℕ) (s : Flags)
    → let s' =
        connected (connection_fuse (some readiness) (some readiness) ha_connections conn_index) s in
      (s'.ready ≡ s.ready || (not (ha_connections == 1) && conn_index == 0)) × (s'.tracked ≡ true)
unfolding connection_fuse active_connected_fuse extra_fuse instance_fuse connected
connected-connection_fuse ha_connections conn_index s = ground arith
