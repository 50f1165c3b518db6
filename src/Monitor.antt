-- ===== src/Monitor.antt =====
-- The monitoring adapter (afterburner/integration/mahm.py): the shared region with the samples, and the
-- telemetry made from it.
pub mod Parse
pub mod Sample
pub mod Bounds
pub mod Sources
pub mod Reading
pub mod View
