-- ===== src/Protocol.antt =====
-- `GAssistPlugin` (afterburner/protocol/plugin.py): the confirmation of risky changes.
pub mod Verdict
pub mod Args
pub mod Prompt
pub mod Confirm
