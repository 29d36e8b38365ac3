-- ===== src/Service/Outcomes.antt =====
-- What the requests and the handlers have done when they return, and what a failure leaves.
pub mod Steps
pub mod Requests
pub mod Lifecycle
pub mod Destroy
pub mod Locks
pub mod Bindings
pub mod Allocation
pub mod Stale
pub mod Associate
pub mod Snapshots
pub mod Sync
pub mod Hostname
