-- ===== src/Routing.antt =====
-- services/routing.
pub mod Logic
pub mod Route
pub mod Control
