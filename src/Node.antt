-- ===== src/Node.antt =====
-- The node, bhumi-node/src.
pub mod Connection
pub mod State
pub mod Core
pub mod Command
pub mod Server
pub mod Client
pub mod Exchange
pub mod Invitation
pub mod Tests
