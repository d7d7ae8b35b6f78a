-- ===== src/Retention.antt =====
-- src/core/broker.ts, `applyRetentionPolicy` and the functions that it calls: which records the broker
-- keeps when it starts, loads a snapshot or saves everything.
mod Examples
pub mod Records
pub mod Selection
pub mod Policy
pub mod Keeps
pub mod Safety
pub mod Evidence
