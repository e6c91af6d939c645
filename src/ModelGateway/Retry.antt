-- ===== src/ModelGateway/Retry.antt =====
-- packages/model-gateway/src/retry.ts: what is worth another attempt, and the attempts with their
-- backoff. The provider, the caller's signal, the clock, the parsing of a header by JavaScript and
-- the rounded product with the jitter come from outside: they are fields of `Env`.
pub mod Attempts
pub mod Pauses
use agentback.Base.{
  ℕ, zero, suc, ◌+◌, ◌-◌, ◌*◌, ◌^◌, min, String, Bool, true, false, not, ◌||◌, Option, none, some,
  List, [], ◌∷◌, ltb, ◌==◌, str_eq, if◌then◌else◌, Result, ok, err, any,
}
use agentback.ModelGateway.Errors.{
  Property, missing, other, number, ProviderError, ModelError, circuit_open, token_budget_exceeded,
  aborted, provider,
}

abbrev pub retryable_status : List ℕ
retryable_status = 408 ∷ 409 ∷ 429 ∷ 500 ∷ 502 ∷ 503 ∷ 504 ∷ []

-- `e.statusCode ?? e.status`, kept if it is a number.
abbrev raw_status : Property → Property → Property
raw_status missing status = status
raw_status (number n) status = number n
raw_status other status = other

abbrev as_number : Property → Option ℕ
as_number (number n) = some n
as_number _ = none

unfoldable pub status_of : ProviderError → Option ℕ
status_of e = as_number (raw_status e.status_code e.status)

unfoldable pub is_abort_shaped : ProviderError → Bool
is_abort_shaped e = str_eq e.name "AbortError" || str_eq e.name "TimeoutError"

abbrev by_status : Option ℕ → Option Bool → Bool
by_status (some status) flag = any (λ s. s == status) retryable_status
by_status none (some flag) = flag
by_status none none = false

abbrev provider_retryable : ProviderError → Bool
provider_retryable e = if is_abort_shaped e then true else by_status (status_of e) e.is_retryable

-- `callerSignal?.aborted` is the second argument. `signal.reason` stands for an abort error of the
-- caller's signal, which is thrown only once that signal has aborted.
unfoldable pub is_retryable : ModelError → Bool → Bool
unfolding is_abort_shaped status_of
is_retryable e true = false
is_retryable (circuit_open target wait) false = false
is_retryable (token_budget_exceeded spent budget) false = false
is_retryable aborted false = true
is_retryable (provider e) false = provider_retryable e

-- An integer number of JavaScript.
pub data ℤ : Type 0 where
  pos negsuc : ℕ → ℤ

-- Math.max(0, n)
abbrev pub at_least_zero : ℤ → ℕ
at_least_zero (pos n) = n
at_least_zero (negsuc n) = 0

pub record Options : Type 0 where
  pub attempts : ℕ
  pub base_delay_ms : ℕ
  pub max_delay_ms : ℕ

-- The attempt number tells the moments apart.
pub record Env (A : Type 0) : Type 0 where
  pub outcome : ℕ → Result ModelError A
  pub aborted_before : ℕ → Bool  -- the signal, when the attempt starts
  pub aborted_after : ℕ → Bool  -- the signal, when the attempt has failed
  pub aborted_pause : ℕ → Bool  -- the signal fires during the pause after the attempt
  pub seconds_ms : String → Option ℤ  -- Number(raw) * 1000, where it is finite, in whole ms
  pub date_parse : String → Option ℤ  -- Date.parse(raw), where it is not NaN
  pub now : ℕ → ℕ  -- Date.now(), when the attempt has failed
  pub jittered : ℕ → ℕ → ℕ  -- Math.round(backoff * jitter()) at an attempt

module _ {A : Type 0} (env : Env A) where
  abbrev delay_of : ℕ → Option ℤ → Option ℤ → Option ℕ
  delay_of now (some ms) date = some (at_least_zero ms)
  delay_of now none (some at) = some (at_least_zero at - now)
  delay_of now none none = none

  abbrev header_ms : ℕ → Option String → Option ℕ
  header_ms attempt none = none
  header_ms attempt (some raw) =
      if str_eq raw ""
      then none
      else delay_of (env.now attempt) (env.seconds_ms raw) (env.date_parse raw)

  unfoldable pub retry_after_ms : ℕ → ModelError → Option ℕ
  retry_after_ms attempt (provider e) = header_ms attempt e.retry_after
  retry_after_ms attempt _ = none

  -- What the catch clause decides: to throw, or to sleep so long and go on.
  unfoldable pub next_delay : Options → ℕ → ModelError → Option ℕ
  next_delay o attempt e =
      if not (is_retryable e (env.aborted_after attempt)) || (attempt + 1 == o.attempts)
      then none
      else elim (retry_after_ms attempt e) [
        | some after ↦ if ltb o.max_delay_ms after then none else some after
        | none ↦ some (env.jittered attempt (min (o.base_delay_ms * 2 ^ attempt) o.max_delay_ms))
      ]

-- The calls made, the pauses begun, and the end of the run: it returns, or it throws an error
-- (`none` is `undefined`, which a loop of no attempts throws).
pub record Run (A : Type 0) : Type 0 where
  pub calls : ℕ
  pub delays : List ℕ
  pub result : Result (Option ModelError) A

abbrev pub thrown : {A : Type 0} → Result ModelError A → Result (Option ModelError) A
thrown (ok a) = ok a
thrown (err e) = err (some e)

abbrev pub stopped : {A : Type 0} → Option ModelError → Run A
stopped e = record { calls = 0; delays = []; result = err e }

-- The pause of an attempt that goes on, and the later attempts.
abbrev pub paused : {A : Type 0} → ℕ → Bool → Run A → Run A
paused d true rest = record { calls = 1; delays = d ∷ []; result = err (some aborted) }
paused d false rest = record {
  calls = rest.calls + 1;
  delays = d ∷ rest.delays;
  result = rest.result;
}

module _ {A : Type 0} (env : Env A) (o : Options) where
  -- The loop, with the attempts left, the number of the next one and the last error.
  pub attempt_from : ℕ → ℕ → Option ModelError → Run A
  attempt_from zero attempt last = stopped last
  attempt_from (suc left) attempt last = elim (env.aborted_before attempt) [
    | true ↦ stopped (some aborted)
    | false ↦ elim (env.outcome attempt) [
      | ok a ↦ record { calls = 1; delays = []; result = ok a }
      | err e ↦ elim (next_delay env o attempt e) [
        | none ↦ record { calls = 1; delays = []; result = err (some e) }
        | some d ↦ paused d (env.aborted_pause attempt) (attempt_from left (attempt + 1) (some e))
      ]
    ]
  ]

  unfoldable pub run : Run A
  unfolding attempt_from
  run = attempt_from o.attempts 0 none
