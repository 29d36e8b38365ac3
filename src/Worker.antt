-- ===== src/Worker.antt =====
-- internal/worker and internal/queue: a message of the task queue, its handler, and what becomes of it.
pub mod Messages
pub mod Dispatch
pub mod Broker
pub mod Loop
pub mod Dispatched
pub mod Isolation
pub mod Retries
pub mod Conserved
