-- ===== src/Relay.antt =====
-- src/relay: the relay process.
pub mod Router
