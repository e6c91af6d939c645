-- ===== src/ModelGateway.antt =====
-- packages/model-gateway: the policies that stand between an application and a model provider.
pub mod Errors
pub mod Breaker
pub mod Retry
pub mod Fallback
pub mod Accounting
