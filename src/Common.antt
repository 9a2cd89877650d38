-- ===== src/Common.antt =====
-- The shared helpers of src/Shared/Common.
pub mod Base64
pub mod Wired
pub mod Strings
pub mod Endian
pub mod Layout
pub mod Hex
pub mod Timer
mod Tests
