-- ===== src/Scheduler.antt =====
-- control-plane/scheduler: the job scheduler.
pub mod Job
pub mod Store
pub mod Pick
pub mod Server
pub mod Invariant
pub mod Preserve
pub mod Reach
pub mod Durable
pub mod Restart
pub mod Timeout
pub mod Placement
pub mod Freshness
pub mod Outcome
pub mod Queue
pub mod Auth
pub mod Limits
pub mod Listing
mod Examples
