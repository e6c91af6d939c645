-- ===== src/ModelGateway/Errors.antt =====
-- packages/model-gateway/src/errors.ts and the shapes that retry.ts reads off what a call threw.
use agentback.Base.{ℕ, String, Bool, Option}

-- A property of a thrown JavaScript object: missing (or null), a number, or anything else.
pub data Property : Type 0 where
  missing other : Property
  number : ℕ → Property

-- What retry.ts and fallback.ts read of an error that is not the gateway's own.
pub record ProviderError : Type 0 where
  pub name : String
  pub status_code : Property
  pub status : Property
  pub retry_after : Option String  -- the Retry-After header, under either spelling
  pub is_retryable : Option Bool  -- the property, where it is a boolean

pub data ModelError : Type 0 where
  circuit_open : String → ℕ → ModelError  -- target, retryAfterMs
  token_budget_exceeded : ℕ → ℕ → ModelError  -- spent, budget
  aborted : ModelError  -- signal.reason
  provider : ProviderError → ModelError
