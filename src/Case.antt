-- ===== src/Case.antt =====
-- The case: its states and their transitions, the audited store, and its runs.
pub mod Status
pub mod Items
pub mod Audit
pub mod Store
pub mod Runs
