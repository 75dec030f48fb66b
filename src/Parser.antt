-- ===== src/Parser.antt =====
-- pkg/parser: a request from the text of a transmission.
pub mod Scanner
pub mod Spatial
pub mod Declare
pub mod Normalize
pub mod Requests
pub mod Samples
mod Tests
