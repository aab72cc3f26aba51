-- ===== src/Link.antt =====
-- The small policies of components/alpha_hwr that watch the BLE link: one header each.
pub mod Watchdog
pub mod Sampler
pub mod Counters
pub mod Hold
pub mod Stall
pub mod Gates
pub mod Session
mod Examples
