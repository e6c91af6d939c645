-- ===== src/Lifecycle.antt =====
-- The registry of life cycle observers, packages/core/src/lifecycle-registry.ts, with the order of
-- packages/context/src/binding-sorter.ts. Observers are known by the keys of their bindings.
pub mod Groups
pub mod Notify
pub mod Reached
pub mod Sweep
pub mod Tracked
pub mod Rollback
pub mod Reversal
