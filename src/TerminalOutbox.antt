-- ===== src/TerminalOutbox.antt =====
-- src/core/terminal-event-outbox.ts: the records of finished tasks that notifiers fetch and acknowledge.
mod Examples
pub mod Types
pub mod Outbox
pub mod Enqueue
pub mod Acks
pub mod Restore
pub mod Cursor
pub mod Places
pub mod Pages
pub mod Replay
pub mod Evidence
