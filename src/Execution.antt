-- ===== src/Execution.antt =====
-- src/core/execution-lifecycle.ts and src/core/execution-lifecycle-types.ts: how a remote session is woken,
-- given its payload, and reports a result.
mod Examples
pub mod Types
pub mod Manager
pub mod Queries
pub mod Moves
pub mod Steps
pub mod Invariant
pub mod Finality
pub mod Payloads
