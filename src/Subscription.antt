-- ===== src/Subscription.antt =====
-- src/rmw_subscription.c.
pub mod Create
pub mod Receive
pub mod Sequence
