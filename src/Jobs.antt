-- ===== src/Jobs.antt =====
-- The in-memory job queue, packages/messaging/src: the store that the queue and its admin share
-- (Jobs/Store), the admin's operations (Jobs/Admin), and the queue with its one worker, whose
-- attempts run under `JobDeadlines` (Jobs/Queue).
pub mod Store
pub mod Enqueued
pub mod Admin
pub mod Drained
pub mod Queue
pub mod Worker
