-- ===== src/Tests.antt =====
-- Concrete runs of the components, at which their theorems are applied.
mod Gateway
mod Actors
mod Streams
mod Plugins
mod Access
mod Jobs
mod Injection
mod Lifecycle
mod Files
mod Registry
