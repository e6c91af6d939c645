-- ===== src/ModelGateway/Retry/Attempts.antt =====
-- How often the provider is called, why, and after which pauses.
use agentback.Base.{
  ℕ, zero, suc, ◌+◌, ◌-◌, ◌≤◌, ◌<◌, ◌≡◌, ◌≢◌, refl, sym, ap, subst, ◌∙◌, ◌⊎◌, inl, inr, Bool, true,
  false, Option, none, some, [], arith, length, get_elem?, Bool-cases, Option-cases, ok, err,
  Result-cases,
}
use native.Mathlib.Nat.{add-zero}
use agentback.ModelGateway.Errors.{ModelError, aborted}
use agentback.ModelGateway.Retry.{
  Options, Env, Run, is_retryable, next_delay, thrown, stopped, paused, attempt_from, run,
}

module _ {A : Type 0} (env : Env A) (o : Options) where
  -- One round of the loop, by how it ends.
  pub data Round (left attempt : ℕ) (r : Run A) : Type 0 where
    left_early :
        env.aborted_before attempt ≡ true → r ≡ stopped (some aborted) → Round left attempt r
    returned :
        (a : A)
        → env.aborted_before attempt ≡ false
        → env.outcome attempt ≡ ok a
        → r ≡ record { calls = 1; delays = []; result = ok a }
        → Round left attempt r
    gave_up :
        (e : ModelError)
        → env.aborted_before attempt ≡ false
        → env.outcome attempt ≡ err e
        → next_delay env o attempt e ≡ none
        → r ≡ record { calls = 1; delays = []; result = err (some e) }
        → Round left attempt r
    slept :
        (e : ModelError) (d : ℕ)
        → env.aborted_before attempt ≡ false
        → env.outcome attempt ≡ err e
        → next_delay env o attempt e ≡ some d
        → r ≡ paused d (env.aborted_pause attempt) (attempt_from env o left (attempt + 1) (some e))
        → Round left attempt r

  pub attempt_from-Round :
      (left attempt : ℕ) (last : Option ModelError)
      → Round left attempt (attempt_from env o (suc left) attempt last)
  unfolding attempt_from
  attempt_from-Round left attempt last = elim (Bool-cases (env.aborted_before attempt)) [
    | inl p ↦ left_early p (ground arith)
    | inr p ↦ elim (Result-cases (env.outcome attempt)) [
      | inl (a, q) ↦ returned a p q (ground arith)
      | inr (e, q) ↦ elim (Option-cases (next_delay env o attempt e)) [
        | inl n ↦ gave_up e p q n (ground arith)
        | inr (d, n) ↦ slept e d p q n (ground arith)
      ]
    ]
  ]

  attempt_from-calls :
      (left attempt : ℕ) (last : Option ModelError)
      → ((attempt_from env o left attempt last).calls ≤ left)
        × (length (attempt_from env o left attempt last).delays
            ≤ (attempt_from env o left attempt last).calls)
  attempt_from-calls zero attempt last = unfold attempt_from in ground arith
  attempt_from-calls (suc left) attempt last = elim (attempt_from-Round left attempt last) [
    | left_early p r ↦ ground arith
    | returned a p q r ↦ ground arith
    | gave_up e p q n r ↦ ground arith
    | slept e d p q n r ↦ ground (arith, attempt_from-calls left (attempt + 1) (some e))
  ]

  next_delay-retryable :
      (attempt : ℕ) (e : ModelError) (d : ℕ)
      → next_delay env o attempt e ≡ some d
      → (is_retryable e (env.aborted_after attempt) ≡ true) × (attempt + 1 ≢ o.attempts)
  unfolding next_delay
  next_delay-retryable attempt e d h = ground arith

  -- What made the loop call again after its call number `i`.
  abbrev pub Justified : Run A → ℕ → ℕ → Type 0
  Justified r attempt i =
      (e : ModelError) × (d : ℕ) × (env.outcome attempt ≡ err e)
      × (is_retryable e (env.aborted_after attempt) ≡ true)
      × (next_delay env o attempt e ≡ some d)
      × (get_elem? r.delays i ≡ some d)

  -- The later calls of a run that slept are those of the rest.
  later-Justified :
      (r rest : Run A) (m i d : ℕ) (b : Bool)
      → r ≡ paused d b rest
      → (suc i < rest.calls → Justified rest m i)
      → suc (suc i) < r.calls
      → Justified r m (suc i)
  later-Justified r rest m i d true q ih h = absurd (ground arith)
  later-Justified r rest m i d false q ih h =
      let (e, d', p0, p1, p2, p3) = ih (ground arith) in (e, d', p0, p1, p2, ground arith)

  attempt_from-Justified :
      (left attempt m i : ℕ) (last : Option ModelError)
      → m ≡ attempt + i
      → suc i < (attempt_from env o left attempt last).calls
      → Justified (attempt_from env o left attempt last) m i
  attempt_from-Justified zero attempt m i last at h = absurd (unfold attempt_from in omega arith)
  attempt_from-Justified (suc left) attempt m zero last at h =
      elim (attempt_from-Round left attempt last) [
        | left_early p r ↦ absurd (ground arith)
        | returned a p q r ↦ absurd (ground arith)
        | gave_up e p q n r ↦ absurd (ground arith)
        | slept e d p q n r ↦
            let here : m ≡ attempt = omega arith in
            let sure = next_delay-retryable attempt e d n in
            (e, d, rw here q, rw here sure.0, rw here n, ground arith)
      ]
  attempt_from-Justified (suc left) attempt m (suc i) last at h =
      elim (attempt_from-Round left attempt last) [
        | left_early p r ↦ absurd (ground arith)
        | returned a p q r ↦ absurd (ground arith)
        | gave_up e p q n r ↦ absurd (ground arith)
        | slept e d p q n r ↦
            later-Justified _ _ m i d _ r
              (attempt_from-Justified left (attempt + 1) m i (some e) (omega arith)) h
      ]

  -- The signal had not fired before any call of a run.
  abbrev pub Unaborted : Run A → ℕ → Type 0
  Unaborted r attempt = (i : ℕ) → i < r.calls → env.aborted_before (attempt + i) ≡ false

  later-Unaborted :
      (r rest : Run A) (attempt d : ℕ) (b : Bool)
      → env.aborted_before attempt ≡ false
      → r ≡ paused d b rest
      → Unaborted rest (attempt + 1)
      → Unaborted r attempt
  later-Unaborted r rest attempt d b p q ih zero h = rw add-zero p
  later-Unaborted r rest attempt d true p q ih (suc i) h = absurd (ground arith)
  later-Unaborted r rest attempt d false p q ih (suc i) h =
      let here : attempt + suc i ≡ attempt + 1 + i = omega arith in rw here (ih i (ground arith))

  once-Unaborted :
      (r : Run A) (attempt : ℕ)
      → env.aborted_before attempt ≡ false
      → r.calls ≡ 1
      → Unaborted r attempt
  once-Unaborted r attempt p q zero h = rw add-zero p
  once-Unaborted r attempt p q (suc i) h = absurd (omega arith)

  attempt_from-Unaborted :
      (left attempt : ℕ) (last : Option ModelError)
      → Unaborted (attempt_from env o left attempt last) attempt
  attempt_from-Unaborted zero attempt last = λ i h. absurd (unfold attempt_from in omega arith)
  attempt_from-Unaborted (suc left) attempt last = elim (attempt_from-Round left attempt last) [
    | left_early p r ↦ λ i h. absurd (ground arith)
    | returned a p q r ↦
        once-Unaborted (attempt_from env o (suc left) attempt last) attempt p (ground arith)
    | gave_up e p q n r ↦
        once-Unaborted (attempt_from env o (suc left) attempt last) attempt p (ground arith)
    | slept e d p q n r ↦
        later-Unaborted _ _ attempt d _ p r (attempt_from-Unaborted left (attempt + 1) (some e))
  ]

  -- The signal fired before the next attempt, or in the pause after the last one.
  abbrev pub AbortedAt : Run A → ℕ → Type 0
  AbortedAt r attempt =
      (n : ℕ) × (((r.calls ≡ n) × (env.aborted_before (attempt + n) ≡ true))
        ⊎ ((r.calls ≡ suc n) × (env.aborted_pause (attempt + n) ≡ true)))

  -- How a run that started an attempt ended.
  abbrev pub EndsAt : Run A → ℕ → Type 0
  EndsAt r attempt =
      ((r.result ≡ err (some aborted)) × AbortedAt r attempt)
      ⊎ ((n : ℕ) × (r.calls ≡ suc n) × (r.result ≡ thrown (env.outcome (attempt + n))))

  pause-EndsAt :
      (r rest : Run A) (attempt d : ℕ)
      → env.aborted_pause attempt ≡ true
      → r ≡ paused d true rest
      → EndsAt r attempt
  pause-EndsAt r rest attempt d p q = inl (ground arith, (0, inr (ground arith, rw add-zero p)))

  paused-EndsAt :
      (r rest : Run A) (attempt d : ℕ) (b : Bool)
      → env.aborted_pause attempt ≡ b
      → r ≡ paused d b rest
      → EndsAt rest (attempt + 1)
      → EndsAt r attempt
  paused-EndsAt r rest attempt d true p q ih = pause-EndsAt r rest attempt d p q
  paused-EndsAt r rest attempt d false p q (inl (h, (n, at))) =
      let here : attempt + suc n ≡ attempt + 1 + n = omega arith in
      inl (ground arith, (suc n, rw here (later at)))
    where
      later :
          {P Q : Type 0}
          → ((rest.calls ≡ n) × P) ⊎ ((rest.calls ≡ suc n) × Q)
          → ((r.calls ≡ suc n) × P) ⊎ ((r.calls ≡ suc (suc n)) × Q)
      later (inl (c, x)) = inl (ground arith, x)
      later (inr (c, x)) = inr (ground arith, x)
  paused-EndsAt r rest attempt d false p q (inr (n, c, h)) =
      let here : attempt + suc n ≡ attempt + 1 + n = omega arith in
      inr (suc n, ground arith, rw here (ground arith))

  last-EndsAt :
      (r : Run A) (attempt d : ℕ) (e : ModelError) (b : Bool)
      → env.outcome attempt ≡ err e
      → env.aborted_pause attempt ≡ b
      → r ≡ paused d b (stopped (some e))
      → EndsAt r attempt
  last-EndsAt r attempt d e true q p h = pause-EndsAt r (stopped (some e)) attempt d p h
  last-EndsAt r attempt d e false q p h = inr (0, ground arith, rw add-zero (ground arith))

  Round-EndsAt :
      (left attempt : ℕ) (r : Run A)
      → Round left attempt r
      → ((e : ModelError) (d : ℕ)
          → env.outcome attempt ≡ err e
          → r
            ≡ paused d (env.aborted_pause attempt) (attempt_from env o left (attempt + 1) (some e))
          → EndsAt r attempt)
      → EndsAt r attempt
  Round-EndsAt left attempt r (left_early b p) more =
      inl (ground arith, (0, inl (ground arith, rw add-zero b)))
  Round-EndsAt left attempt r (returned a b q p) more =
      inr (0, ground arith, rw add-zero (ground arith))
  Round-EndsAt left attempt r (gave_up e b q n p) more =
      inr (0, ground arith, rw add-zero (ground arith))
  Round-EndsAt left attempt r (slept e d b q n p) more = more e d q p

  attempt_from-zero :
      (attempt : ℕ) (last : Option ModelError) → attempt_from env o 0 attempt last ≡ stopped last
  unfolding attempt_from
  attempt_from-zero attempt last = refl

  attempt_from-EndsAt :
      (left attempt : ℕ) (last : Option ModelError)
      → EndsAt (attempt_from env o (suc left) attempt last) attempt
  attempt_from-EndsAt zero attempt last =
      Round-EndsAt 0 attempt _ (attempt_from-Round 0 attempt last) λ e d q p.
        last-EndsAt _ attempt d e (env.aborted_pause attempt) q refl
          (p ∙ ap (paused d (env.aborted_pause attempt)) (attempt_from-zero (attempt + 1) (some e)))
  attempt_from-EndsAt (suc left) attempt last =
      Round-EndsAt (suc left) attempt _ (attempt_from-Round (suc left) attempt last) λ e d q p.
        paused-EndsAt _ _ attempt d _ refl p (attempt_from-EndsAt left (attempt + 1) (some e))

  -- With at least one attempt allowed: the provider is called at most `attempts` times, and never
  -- once the signal has fired before the attempt; each call but the last had failed with an error
  -- worth a retry and was followed by its pause; and the run ends as its last call ended, or with the
  -- abort of a signal that fired before the next attempt or in the pause after the last call.
  pub run_lem :
      0 < o.attempts
      → ((run env o).calls ≤ o.attempts)
        × Unaborted (run env o) 0
        × ((i : ℕ) → suc i < (run env o).calls → Justified (run env o) i i)
        × EndsAt (run env o) 0
  unfolding run
  run_lem h = (
    (attempt_from-calls o.attempts 0 none).0,
    attempt_from-Unaborted o.attempts 0 none,
    (λ i p. attempt_from-Justified o.attempts 0 i i none (omega arith) p),
    let e : o.attempts ≡ suc (o.attempts - 1) = omega arith in
        subst (λ k. EndsAt (attempt_from env o k 0 none) 0) (sym e)
          (attempt_from-EndsAt (o.attempts - 1) 0 none),
  )
