-- ===== src/Routing/Control.antt =====
-- services/routing/store.py: `ControlStore`, the approvals of a case.
pub mod Items
pub mod Store
pub mod Tick
pub mod Decide
pub mod Reallocate
pub mod Save
pub mod Grown
pub mod Stood
pub mod Steps
pub mod Final
