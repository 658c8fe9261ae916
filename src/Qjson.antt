-- ===== src/Qjson.antt =====
-- crates/qjson
pub mod Time
pub mod Utf8
pub mod Floats
pub mod Json
