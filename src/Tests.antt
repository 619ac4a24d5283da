-- ===== src/Tests.antt =====
-- The theorems at concrete inputs.
mod Topics
mod Handles
mod Nodes
mod Contexts
mod Waits
mod Bytes
mod Loans
mod Created
mod Foreign
mod Exchanges
