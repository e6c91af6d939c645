-- ===== src/ModelGateway/Fallback.antt =====
-- packages/model-gateway/src/fallback.ts: the other providers, in order, after the primary fails.
-- How each model would answer is a list; the caller's signal is read once after each failure.
pub mod Answer
use agentback.Base.{
  ℕ, zero, suc, ◌+◌, Bool, true, false, not, ◌&&◌, ◌||◌, Option, none, some, List, [], ◌∷◌, ltb,
  leb, ◌==◌, if◌then◌else◌, Result, ok, err,
}
use agentback.ModelGateway.Errors.{
  ModelError, circuit_open, token_budget_exceeded, aborted, provider,
}
use agentback.ModelGateway.Retry.{status_of}

abbrev failover_status : Option ℕ → Bool
failover_status none = true
failover_status (some status) =
    if leb 400 status && ltb status 500
    then status == 408 || status == 409 || status == 429
    else true

unfoldable pub default_should_failover : ModelError → Bool
unfolding status_of
default_should_failover (token_budget_exceeded spent budget) = false
default_should_failover (provider e) = failover_status (status_of e)
default_should_failover _ = true

-- `tried` counts the secondary models called; `served` is the place, among them, of the one that
-- answered, where it was not the primary.
pub record Run (A : Type 0) : Type 0 where
  pub tried : ℕ
  pub served : Option ℕ
  pub result : Result ModelError A

-- `failover(e)`, at the failure of model number `at` (the primary is number 0).
abbrev pub fails_over : (ModelError → Bool) → (ℕ → Bool) → ℕ → ModelError → Bool
fails_over should_failover cancelled at e = not (cancelled at) && should_failover e

module _ {A : Type 0} (should_failover : ModelError → Bool) (cancelled : ℕ → Bool) where
  abbrev next : ℕ → ModelError → Run A → Run A
  next at e rest =
      if fails_over should_failover cancelled at e
      then record rest { tried = rest.tried + 1 }
      else record { tried = 1; served = none; result = err e }

  -- The loop over the secondaries: `i` is the place of the next one.
  unfoldable pub try_from : ℕ → ModelError → List (Result ModelError A) → Run A
  try_from i last [] = record { tried = 0; served = none; result = err last }
  try_from i last (ok a ∷ others) = record { tried = 1; served = some i; result = ok a }
  try_from i last (err e ∷ others) = next (suc i) e (try_from (suc i) e others)

  unfoldable pub run : Result ModelError A → List (Result ModelError A) → Run A
  unfolding try_from
  run (ok a) secondaries = record { tried = 0; served = none; result = ok a }
  run (err e) secondaries =
      if fails_over should_failover cancelled 0 e
      then try_from 0 e secondaries
      else record { tried = 0; served = none; result = err e }
