-- ===== src/Quic.antt =====
-- The QUIC transport of internal/cftunnel/runtime: its messages (quic_protocol.go), the streams that
-- carry them (quic_rpc_server.go), and the requests of the edge (quic_runtime_connection.go).
pub mod Headers
pub mod Message
pub mod Preamble
pub mod Connection
pub mod Streams
