-- ===== src/Relay.antt =====
-- The relay, bhumi-relay/src.
pub mod Router
pub mod Session
pub mod Tests
