-- ===== src/Injection.antt =====
-- The dependency injection container, packages/context/src: the session that tracks what is being
-- resolved (Injection/Session), contexts and the scopes of bindings (Injection/Scopes), and the
-- resolution of a binding and of what is injected into it (Injection/Resolver). Resolution is taken
-- where every value is at hand: no value is a promise.
pub mod Session
pub mod Scopes
pub mod Resolver
pub mod Values
pub mod Bounds
pub mod Ends
pub mod Termination
