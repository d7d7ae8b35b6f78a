-- ===== src/Proposal.antt =====
-- src/core/proposal-types.ts and src/core/proposal-lifecycle.ts: proposals that come out of a
-- conference, their state machine and the manager that keeps them. A time is the number of
-- milliseconds that the ISO text stands for; each operation takes the clock's readings in the order in
-- which the code reads the clock, and `create` the id that the factory gives.
pub mod Types
pub mod Manager
pub mod Moves
pub mod Steps
mod Examples
pub mod Invariant
pub mod Finality
pub mod Responses
