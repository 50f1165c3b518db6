-- ===== src/Tests.antt =====
-- The theorems at work on a small concrete Afterburner.
pub mod Bench
mod Safety
mod Services
mod Integration
mod Protocol
mod Control
mod Wire
mod Profiles
mod Monitor
