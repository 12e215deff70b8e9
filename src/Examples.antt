-- ===== src/Examples.antt =====
-- Concrete inputs at which the hypotheses of the theorems hold.
mod Bridge
mod Group
mod Routing
mod Headers
mod Start
mod Transport
mod Websocket
mod Streams
mod Service
mod Discovery
mod Dials
mod Proxies
