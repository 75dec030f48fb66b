-- ===== src/Tacview.antt =====
-- pkg/tacview: the objects of an ACMI stream and their coordinates.
pub mod Coordinates
pub mod Objects
pub mod Client
pub mod Lines
pub mod Stream
pub mod Samples
mod Tests
mod StreamTests
