-- ===== src/Radar.antt =====
-- pkg/radar: the contact database, and the scope that keeps it.
pub mod Database
pub mod Scope
pub mod Grouping
pub mod Merging
pub mod Fades
pub mod Nearest
pub mod Nearby
pub mod Store
pub mod InsertionSort
pub mod Threats
pub mod Picture
pub mod Samples
mod Tests
mod SearchTests
