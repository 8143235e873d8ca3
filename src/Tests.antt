-- ===== src/Tests.antt =====
-- The theorems at concrete inputs.
mod Executions
mod Writes
mod Cases
mod Approvals
mod Items
mod Planning
mod Stock
mod Portfolios
mod Plans
