-- ===== src/Handles.antt =====
-- Handles other than publishers and subscriptions: guard conditions, nodes, wait sets, services,
-- clients and events.
pub mod GuardConditions
pub mod Nodes
pub mod WaitSets
pub mod Services
pub mod Events
pub mod Blocks
pub mod Attempts
pub mod Foreign
