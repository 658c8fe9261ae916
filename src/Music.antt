-- ===== src/Music.antt =====
-- The musical types of crates/music-domain.
pub mod Letter
pub mod Interval
pub mod Pitch
pub mod BeatTime
pub mod TimeMap
pub mod Tests
