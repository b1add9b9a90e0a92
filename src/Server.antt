-- ===== src/Server.antt =====
-- The signalling server: server/offerer.go, server/anserer.go, server/host.go, server/auth.go.
pub mod Packets
pub mod Offerer
pub mod Answerer
pub mod Host
pub mod Auth
pub mod Serving
