-- ===== src/Client.antt =====
-- The client side of YAMRP.
pub mod Proxy
pub mod Agent
pub mod Listener
pub mod Host
pub mod PeerConn
