-- ===== src/Dataplane/Linux.antt =====
-- internal/dataplane/linux.
pub mod Kernel
pub mod Ownership
pub mod Plane
pub mod Routing
pub mod Cleanup
pub mod Lifecycle
pub mod Laws
pub mod Shapes
pub mod Revocation
pub mod Listing
pub mod Remaining
pub mod Clearing
pub mod Scanning
pub mod Choosing
pub mod Leading
pub mod Tests
