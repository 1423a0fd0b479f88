-- ===== src/Network.antt =====
-- Two nodes and the relay between them.
pub mod Delivery
pub mod Answer
pub mod Holds
pub mod Ready
pub mod Round
pub mod Command
pub mod Tests
