-- ===== src/Stubs.antt =====
-- The functions that are not implemented in the source beyond the checks of their arguments.
pub mod Topics
pub mod Services
pub mod Refusals
