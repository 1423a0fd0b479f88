-- ===== src/Proto.antt =====
-- The wire protocol, bhumi-proto/src/lib.rs.
pub mod Buffer
pub mod Hello
pub mod Send
pub mod Deliver
pub mod Ack
pub mod SendResult
pub mod Commits
pub mod UpdateCommits
pub mod Responses
pub mod IAm
pub mod Utf8
pub mod HandshakeInit
pub mod HandshakeComplete
pub mod DeviceMessage
pub mod DeviceMessageResponse
pub mod Frame
pub mod Total
pub mod Narrow
pub mod Tests
pub mod Message
