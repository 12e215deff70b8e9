-- ===== src/Lib.antt =====
-- Verification library of cf-tunnel, a program that publishes local services through Cloudflare
-- tunnels. The program reads a configuration, prepares a session for each tunnel, keeps a group of
-- connections to the edge alive, and proxies the requests that arrive on them to origins.
--
-- The parts, in the order in which the program passes through them:
-- * Config (internal/config/config.go): the configuration. Config/Path and Config/Rules hold
--   validateAndNormalizeRoutePath, validateRouteHost and validateRouteRules, Config/RouteFlag the
--   --cf-route flag, Config/Validate the Validate methods, Config/Load the defaults, applyConfigFile
--   and Parse.
-- * Session (internal/cftunnel/config/runtime.go, internal/cftunnel/credentials/token.go,
--   internal/cftunnel/session_setup.go and session.go, origin_rebuild.go, protocol_selector.go and
--   prepare.go of internal/cftunnel/runtime): Normalize, ParseTunnelToken, BuildSession,
--   BuildTokenSession, prepareTunnelSessionWith and OriginTarget.
-- * Origin (internal/cftunnel/origin): target.go; Origin/Router is router.go, Origin/RoutedProxy
--   routed_proxy.go, Origin/Forward the rewriting of requests in proxy.go. Origin/Router/Spec is an
--   independent description of the choice of a route.
-- * Edge (internal/cftunnel/runtime/edge_discovery.go); Edge/Pool is edge_pool.go.
-- * Bridge (internal/cftunnel/runtime/runner.go): runConnectionWithRetry and backoffDuration;
--   Bridge/Fuses holds the fuses, Bridge/Supervise runHAConnections as a state machine.
-- * Status (internal/health/runner.go, internal/cftunnel/runner.go): states and readiness;
--   Status/Multi and Status/Group are internal/cftunnel/multi_runner.go.
-- * Api (internal/cftunnel/api/client.go): CreateQuickTunnel, whose reservation a session is
--   built from.
-- * Registration (control_stream.go, connection_options_runtime.go, capnp_transport.go and the
--   registration in quic_protocol.go, all in internal/cftunnel/runtime, as are the next files); Registration/Ends is
--   what Serve of http2_runtime_connection.go returns for a control stream.
-- * Wire (http2_protocol.go): headers inside one header field. Http2 (http2_runtime_connection.go):
--   the types of requests and the response writer; Http2/Serve is ServeHTTP. Http2/Websocket
--   (internal/cftunnel/origin/proxy.go): ProxyWebsocket on such a stream.
-- * Quic (quic_*.go): Quic/Message (quic_protocol.go) the messages, Quic/Preamble (quic_rpc_server.go) the bytes
--   in front of a stream, Quic/Headers, Quic/Connection and Quic/Streams
--   (quic_runtime_connection.go) the metadata, the response writer and the streams.
-- * Dial (http2_dial_config.go, http2_options.go): the address and the transport of an HTTP/2
--   connection; Dial/Ports (quic_dialer.go) the ports of QUIC connections.
-- * Upstream (upstream_response_writer.go, upstream_origin_proxy.go): responseWriterAdapter, over an
--   interface of a transport's response writer that Http2/Writer and Quic/Connection/Writer fill,
--   and Upstream/Tcp, the relay of TCP streams.
-- * Supervisor (internal/runtime/runtime.go): RunWithOptions as a loop over events.
-- * Text holds the functions of package strings, Prelude what all parts share, Examples concrete
--   inputs at which the hypotheses of the theorems hold.
--
-- Names of the source are kept, in lower case with underscores; a function that returns
-- (T, error) returns a Result, a pointer that may be nil is an Option, a map an association list,
-- and a text the list of its code points. What a lock protects is one step. A loop over attempts or
-- over the events of a select is a recursion on their list, so no fuel is needed; loops over rules,
-- headers and addresses are recursions on the list. An int64 that is doubled keeps its wrap-around,
-- and a connection's index its conversion to uint8; 256 connections is the bound of the program.
--
-- A handler of requests is the list of the calls that it makes on its writer, and a stream the bytes
-- that arrive. In Wire, Http2, Quic and Api a text is a list of bytes. The digits of a status
-- have fuel, one more than the number, which is shown to be enough.
--
-- Not modelled: url.Parse, URL.String, YAML, JSON, the base64 of tokens, uuid.Parse, the flag
-- package, DNS, net.SplitHostPort, the parser of IP addresses, sort.Strings and the capnp library,
-- which are arguments; case pairs outside ASCII; sockets, the HTTP/2 and QUIC libraries, the dialing
-- of edges but for addresses and ports, timeouts, buffers and logging, which are I/O.
pub mod Prelude
pub mod Text
pub mod Wire
pub mod Upstream
pub mod Http2
pub mod Quic
pub mod Config
pub mod Origin
pub mod Edge
pub mod Session
pub mod Api
pub mod Registration
pub mod Dial
pub mod Bridge
pub mod Supervisor
pub mod Status
pub mod Examples
