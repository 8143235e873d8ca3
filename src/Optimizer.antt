-- ===== src/Optimizer.antt =====
-- services/optimizer.
pub mod Problem
pub mod Check
pub mod Solver
pub mod Projection
pub mod Portfolio
