-- ===== src/Controller.antt =====
-- pkg/controller: the merge tracker, the threat cooldowns, and the handlers that use them.
pub mod Radar
pub mod Callsigns
pub mod Merges
pub mod Threats
pub mod Calls
pub mod Handlers
pub mod Requests
pub mod Samples
mod Tests
mod RequestTests
