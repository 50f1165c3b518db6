-- ===== src/Integration.antt =====
-- The adapters behind `AfterburnerInterface` (afterburner/integration/).
pub mod Fake
pub mod Client
pub mod Reconnect
pub mod Adapters
pub mod ProfileFiles
