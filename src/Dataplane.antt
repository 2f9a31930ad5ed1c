-- ===== src/Dataplane.antt =====
-- internal/dataplane: the interface to the host's routing, and its implementations.
mod Interfaces
pub mod Fake
pub mod Linux
pub use Interfaces.*
