-- ===== src/Service.antt =====
-- internal/service: the requests of the API and the tasks of the worker.
pub mod Actions
pub mod Steps
pub mod Lifecycle
pub mod Volumes
pub mod Destroy
pub mod Create
pub mod Snapshots
pub mod FloatingIps
pub mod Requests
pub mod Sync
pub mod Accounts
pub mod Async
pub mod Sound
pub mod Calls
pub mod Isolation
pub mod Outcomes
