-- ===== src/Radio.antt =====
-- The SRS radio client: pkg/simpleradio and its packages types and voice.
pub mod Bytes
pub mod Packet
pub mod Types
pub mod Receiver
pub mod Clients
pub mod Voice
pub mod Samples
mod Tests
mod VoiceTests
