-- ===== src/Platform.antt =====
-- What the rmw functions stand on: the structs of the rmw and hazcat interfaces, the calls to code
-- outside the repository as a history, the environment that answers them, and C's early returns.
mod Types
mod Trace
mod Control
mod Calls
pub use Types.*
pub use Trace.*
pub use Control.*
unfoldable pub use Calls.*
