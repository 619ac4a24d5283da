-- ===== src/Publisher.antt =====
-- src/rmw_publisher.c.
pub mod Create
pub mod Send
