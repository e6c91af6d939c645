-- ===== src/Actors.antt =====
-- packages/actors: stateful entities at a stable address, with serialized turns, idempotent retries
-- and an event log.
pub mod Mailbox
pub mod Json
pub mod Types
pub mod Fingerprint
pub mod Identity
pub mod Store
pub mod Runtime
