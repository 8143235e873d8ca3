-- ===== src/Rules.antt =====
-- services/rules.
pub mod Priority
pub mod Intake
pub mod Impact
pub mod Sender
