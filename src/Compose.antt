-- ===== src/Compose.antt =====
-- backend/src/build/strategies/compose.service.ts: what a deploy does to a compose file. The file is
-- sanitized, its services are split into the pinned ones, kept in the base project, and the eligible
-- ones, released blue-green, and the two files and their overrides are written from the split.
pub mod Values
pub mod Sanitize
pub mod Classify
pub mod Split
pub mod Hardening
pub mod Pinning
pub mod Pins
pub mod Partition
pub mod Files
pub mod Tiers
mod Tests
