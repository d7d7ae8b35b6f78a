-- ===== src/Broker.antt =====
-- src/core/broker.ts: the broker's tasks, from claim to closeout, with the exchanges, tombstones, audit
-- events and task updates that follow them.
pub mod Types
pub mod State
pub mod Guards
pub mod Tasks
pub mod Cancel
pub mod Requeue
pub mod EventIds
pub mod Subscriptions
pub mod Numbers
pub mod Frame
pub mod Lifecycle
pub mod Turns
pub mod Progress
pub mod Decisions
pub mod Cancels
pub mod Rejections
pub mod Sweeps
pub mod Operations
pub mod History
pub mod Claims
pub mod Recovery
pub mod Replays
pub mod Persistence
pub mod Survival
pub mod Children
pub mod Walks
pub mod Descent
pub mod Trees
pub mod Descendants
mod Samples
mod Sessions
mod Examples
