-- ===== src/Delivery.antt =====
-- src/core/delivery-lifecycle.ts and src/core/delivery-lifecycle-types.ts: how the result of a run
-- reaches the session that asked for it.
mod Examples
pub mod Types
pub mod Manager
pub mod Queries
pub mod Moves
pub mod Steps
pub mod Validity
pub mod Invariant
pub mod Sends
pub mod Runs
pub mod Deadlines
