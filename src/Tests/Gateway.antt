-- ===== src/Tests/Gateway.antt =====
-- Runs of the model gateway's policies.
use agentback.Base.{
  map, ◌+◌, ◌-◌, ℕ, zero, suc, ◌≤◌, ◌<◌, ◌≡◌, refl, Bool, true, false, none, some, List, [], ◌∷◌,
  String, arith, Result, ok, err,
}
use agentback.Base.Map.{lookup}
use agentback.ModelGateway.Errors.{ModelError, circuit_open, provider, missing, number}
use agentback.ModelGateway.Breaker.{Breaker, Circuit, circuit_for, assert_closed, guard}
use agentback.ModelGateway.Breaker.Invariant.{Inv, guard-Inv}
use agentback.ModelGateway.Breaker.Probe.{answers, assert_closed-single_probe}
use agentback.ModelGateway.Breaker.Trip.{fail_all, opened_at-fail_all}
use agentback.ModelGateway.Retry.{Env, Options, run, next_delay, is_retryable, retry_after_ms}
use agentback.ModelGateway.Retry.Attempts.{Justified, Unaborted, EndsAt, run_lem}
use agentback.ModelGateway.Retry.Pauses.{run-succeeds}
use agentback.ModelGateway.Fallback
use agentback.ModelGateway.Fallback.Answer.{EndedBy, PassedOn, run-Verdict}
use agentback.ModelGateway.Accounting.Parallel
use agentback.ModelGateway.Accounting.{
  Chain, Generated, flush, cancel, finish, text, opened, spend, event, total_tokens,
}
use agentback.ModelGateway.Accounting.Budget.{calls, units, Charged, calls-Charged}
use agentback.ModelGateway.Accounting.Stream.{
  end_all, transform_all, last_usage, status_of, end_all-once,
}

abbrev overloaded : ModelError
overloaded = provider (record {
  name = "APICallError";
  status_code = number 503;
  status = missing;
  retry_after = none;
  is_retryable = none;
})

-- A breaker that trips at two failures and cools down for 100 ms, after two failures at 10.
abbrev new_breaker : Breaker
new_breaker = record { threshold = 2; reset_after_ms = 100; circuits = [] }

abbrev open_circuit : Circuit
open_circuit = record { failures = 2; opened_at = some 10; probe_started_at = none }

abbrev open_breaker : Breaker
open_breaker = record { threshold = 2; reset_after_ms = 100; circuits = ("m", open_circuit) ∷ [] }

new_breaker-Inv : Inv new_breaker
unfolding circuit_for lookup
new_breaker-Inv = record {
  positive = omega arith;
  sound = λ t. record { tripped_at = omega arith; probed = tt };
}

open_breaker-Inv : Inv open_breaker
unfolding circuit_for lookup
open_breaker-Inv = record { positive = omega arith; sound = λ t. ground arith }

opened_at-fail_all_example :
    (circuit_for (fail_all new_breaker "m" (5 ∷ 10 ∷ [])) "m").opened_at ≡ some 10
unfolding circuit_for lookup
opened_at-fail_all_example = opened_at-fail_all new_breaker "m" 5 (10 ∷ []) new_breaker-Inv

assert_closed-single_probe_example :
    answers (assert_closed open_breaker "m" 120).0 "m" (150 ∷ 160 ∷ [])
    ≡ map (λ t. err (circuit_open "m" (120 + 100 - t))) (150 ∷ 160 ∷ [])
unfolding assert_closed circuit_for lookup
assert_closed-single_probe_example =
    assert_closed-single_probe open_breaker "m" 120 10 (150 ∷ 160 ∷ []) refl refl
      ((omega arith, omega arith), ((omega arith, omega arith), tt))

guard-Inv_example : Inv (guard {A = ℕ} (λ e. true) open_breaker "m" 120 125 (err overloaded)).0
guard-Inv_example =
    guard-Inv {A = ℕ} (λ e. true) "m" open_breaker 120 125 (err overloaded) open_breaker-Inv

-- Two attempts that fail with a 503, and one that answers.
abbrev third_answers : ℕ → Result ModelError ℕ
third_answers zero = err overloaded
third_answers (suc zero) = err overloaded
third_answers (suc (suc i)) = ok 42

abbrev env : Env ℕ
env = record {
  outcome = third_answers;
  aborted_before = λ i. false;
  aborted_after = λ i. false;
  aborted_pause = λ i. false;
  seconds_ms = λ s. none;
  date_parse = λ s. none;
  now = λ i. 0;
  jittered = λ i backoff. backoff;
}

abbrev options : Options
options = record { attempts = 3; base_delay_ms = 500; max_delay_ms = 30000 }

run_lem_example :
    ((run env options).calls ≤ 3)
    × Unaborted env options (run env options) 0
    × ((i : ℕ) → suc i < (run env options).calls → Justified env options (run env options) i i)
    × EndsAt env options (run env options) 0
run_lem_example = run_lem env options (omega arith)

recovers :
    (i : ℕ)
    → i < 2
    → (e : ModelError) × (d : ℕ) × (third_answers i ≡ err e) × (next_delay env options i e ≡ some d)
unfolding next_delay is_retryable retry_after_ms
recovers zero h = (overloaded, 500, refl, refl)
recovers (suc zero) h = (overloaded, 1000, refl, refl)
recovers (suc (suc i)) h = absurd (omega arith)

run-succeeds_example : ((run env options).calls ≡ 3) × ((run env options).result ≡ ok 42)
run-succeeds_example =
    run-succeeds env options 2 42 (record { before = λ i. refl; pause = λ i. refl }) (omega arith)
      recovers refl

abbrev all_errors : ModelError → Bool
all_errors e = true

abbrev secondaries : List (Result ModelError ℕ)
secondaries = err overloaded ∷ ok 5 ∷ []

abbrev outcomes : List (Result ModelError ℕ)
outcomes = err overloaded ∷ secondaries

run-Verdict_example :
    let r = Fallback.run {A = ℕ} all_errors (λ i. false) (err overloaded) secondaries in
    EndedBy all_errors (λ i. false) 0 outcomes r.tried r.result
    × PassedOn all_errors (λ i. false) 0 outcomes r.tried
run-Verdict_example = run-Verdict all_errors (λ i. false) (err overloaded) secondaries

abbrev failure : Result ModelError ℕ
failure = err overloaded

-- A turn within a run: the turn may spend 100 tokens and the run 1000.
abbrev scopes : Chain
scopes =
    record { token_budget = some 100; tokens_spent = 60; refused = none }
    ∷ record { token_budget = some 1000; tokens_spent = 200; refused = none }
    ∷ []

abbrev spent_scopes : Chain
spent_scopes = record { token_budget = some 100; tokens_spent = 130; refused = none } ∷ []

abbrev answer : Generated
answer = record {
  usage = some (record { input_tokens = some 30; output_tokens = some 40 });
  served = none;
}

abbrev two_calls : List (String × Result ModelError Generated)
two_calls = ("gpt", ok answer) ∷ ("gpt", ok answer) ∷ []

calls-Charged_example : Charged (units (calls scopes two_calls).1) scopes (calls scopes two_calls).0
calls-Charged_example = calls-Charged scopes two_calls

-- Two calls overlap, and the third is refused.
abbrev overlapping : List Parallel.Move
overlapping =
    Parallel.starts
    ∷ Parallel.starts
    ∷ Parallel.ends "gpt" (ok answer)
    ∷ Parallel.ends "gpt" (ok answer)
    ∷ Parallel.starts
    ∷ []

abbrev idle_scopes : Parallel.Metered
idle_scopes = record { scope = scopes; in_flight = 0; events = [] }

run-Overrun_example : Parallel.Overrun 70 2 139 (Parallel.run idle_scopes overlapping).scope
unfolding total_tokens Parallel.step
run-Overrun_example =
    Parallel.run-Overrun 70 2 idle_scopes overlapping refl
      (omega arith, (omega arith, (omega arith, (omega arith, (omega arith, tt)))))
      (omega arith, (omega arith, tt))

end_all-once_example :
    let parts =
      text ∷ finish (some (record { input_tokens = some 30; output_tokens = some 40 })) ∷ [] in
    let t = end_all "gpt" (transform_all (opened scopes) parts) (flush ∷ cancel ∷ []) in
    (t.scope ≡ spend (total_tokens (last_usage none parts)) scopes)
    × (t.events ≡ event (last_usage none parts) "gpt" (status_of flush parts) ∷ [])
end_all-once_example =
    end_all-once scopes "gpt"
      (text ∷ finish (some (record { input_tokens = some 30; output_tokens = some 40 })) ∷ []) flush
      (cancel ∷ [])
