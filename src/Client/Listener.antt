-- ===== src/Client/Listener.antt =====
-- client/listener.go: `ListenerNetConn`.
pub mod Exchange
pub mod Offer
pub mod Setup
pub mod Sessions
