-- ===== src/Execution.antt =====
-- services/execution: the durable journal of writes, the stock ledger and the workflow over both.
pub mod Fault
pub mod Journal
pub mod Ledger
pub mod Identity
pub mod Boundary
pub mod Compensate
pub mod Workflow
