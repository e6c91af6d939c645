-- ===== src/ModelGateway/Retry/Pauses.antt =====
-- When the attempts lead to an answer, and how long the pauses are.
use agentback.Base.{
  ℕ, zero, suc, min, ◌+◌, ◌*◌, ◌^◌, ◌≤◌, ◌<◌, ◌≡◌, Bool, true, false, Option, none, some, arith,
  All, ok, err,
}
use native.Mathlib.Nat.{zero-add}
use agentback.ModelGateway.Errors.{ModelError}
use agentback.ModelGateway.Retry.{Options, Env, Run, next_delay, paused, attempt_from, run}
use agentback.ModelGateway.Retry.Attempts.{Round, attempt_from-Round}

module _ {A : Type 0} (env : Env A) (o : Options) where
  -- The caller's signal stays quiet.
  pub record IsQuiet : Type 0 where
    pub before : (i : ℕ) → env.aborted_before i ≡ false
    pub pause : (i : ℕ) → env.aborted_pause i ≡ false

  -- An attempt that fails in a way that is worth another one.
  abbrev pub Recovers : ℕ → Type 0
  Recovers i =
      (e : ModelError) × (d : ℕ) × (env.outcome i ≡ err e) × (next_delay env o i e ≡ some d)

  attempt_from-succeeds :
      (n left attempt : ℕ) (last : Option ModelError) (a : A)
      → IsQuiet
      → n < left
      → ((i : ℕ) → i < n → Recovers (attempt + i))
      → env.outcome (attempt + n) ≡ ok a
      → ((attempt_from env o left attempt last).calls ≡ suc n)
        × ((attempt_from env o left attempt last).result ≡ ok a)
  unfolding attempt_from
  attempt_from-succeeds n zero attempt last a v h fails good = absurd (omega arith)
  attempt_from-succeeds zero (suc left) attempt last a v h fails good =
      let here : attempt + 0 ≡ attempt = omega arith in
      ground (arith, v.before attempt, rw here at good)
  attempt_from-succeeds (suc n) (suc left) attempt last a v h fails good =
      let (e, d, p, q) = fails 0 (omega arith) in
      let here : attempt + 0 ≡ attempt = omega arith in
      ground (
        arith,
        v.before attempt,
        v.pause attempt,
        rw here at p,
        rw here at q,
        attempt_from-succeeds n left (attempt + 1) (some e) a v (omega arith)
            (λ i b.
              let there : attempt + 1 + i ≡ attempt + suc i = omega arith in
              rw there (fails (suc i) (omega arith)))
            (let there : attempt + 1 + n ≡ attempt + suc n = omega arith in rw there good),
      )

  -- If the signal stays quiet, the first `n` calls fail in ways worth a retry and the next one
  -- returns within the attempts allowed, the run returns what it returned, after `n + 1` calls.
  pub run-succeeds :
      (n : ℕ) (a : A)
      → IsQuiet
      → n < o.attempts
      → ((i : ℕ) → i < n → Recovers i)
      → env.outcome n ≡ ok a
      → ((run env o).calls ≡ suc n) × ((run env o).result ≡ ok a)
  unfolding run
  run-succeeds n a v h fails good =
      attempt_from-succeeds n o.attempts 0 none a v h (λ i b. rw zero-add (fails i b))
        (rw zero-add good)

  -- The documented range of the jitter, [0.5, 1.5), on a rounded product.
  abbrev pub JitterInRange : Type 0
  JitterInRange = (attempt backoff : ℕ) → env.jittered attempt backoff * 2 ≤ backoff * 3

  next_delay_bound :
      JitterInRange
      → (attempt : ℕ) (e : ModelError) (d : ℕ) → next_delay env o attempt e ≡ some d
      → d * 2 ≤ o.max_delay_ms * 3
  unfolding next_delay
  next_delay_bound j attempt e d h =
      ground (arith, j attempt (min (o.base_delay_ms * 2 ^ attempt) o.max_delay_ms))

  All-paused :
      (P : ℕ → Type 0) (r rest : Run A) (d : ℕ) (b : Bool)
      → r ≡ paused d b rest
      → P d
      → All P rest.delays
      → All P r.delays
  All-paused P r rest d true q h more = rw q (h, tt)
  All-paused P r rest d false q h more = rw q (h, more)

  attempt_from-delays :
      JitterInRange
      → (left attempt : ℕ) (last : Option ModelError)
      → All (λ d. d * 2 ≤ o.max_delay_ms * 3) (attempt_from env o left attempt last).delays
  attempt_from-delays j zero attempt last = unfold attempt_from in tt
  attempt_from-delays j (suc left) attempt last =
      elim (attempt_from-Round env o left attempt last) [
        | Round.left_early p r ↦ rw r tt
        | Round.returned a p q r ↦ rw r tt
        | Round.gave_up e p q n r ↦ rw r tt
        | Round.slept e d p q n r ↦
            All-paused (λ k. k * 2 ≤ o.max_delay_ms * 3) _ _ d _ r
              (next_delay_bound j attempt e d n) (attempt_from-delays j left (attempt + 1) (some e))
      ]

  -- With the jitter in its documented range no pause is longer than one and a half times
  -- `maxDelayMs`, whatever the provider asked for.
  pub delays-run : JitterInRange → All (λ d. d * 2 ≤ o.max_delay_ms * 3) (run env o).delays
  unfolding run
  delays-run j = attempt_from-delays j o.attempts 0 none
