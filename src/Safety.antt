-- ===== src/Safety.antt =====
-- The safety layer (afterburner/safety/).
pub mod Capabilities
pub mod Gating
pub mod Validator
pub mod Clamping
pub mod FanCurves
pub mod Policy
pub mod Tokens
pub mod Frame
