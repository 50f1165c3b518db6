-- ===== src/Services.antt =====
-- The domain services (afterburner/services/).
pub mod Calls
pub mod Optimize
pub mod Telemetry
pub mod Diagnostics
pub mod Profiles
