-- ===== src/ModelGateway/Breaker/Probe.antt =====
-- Refusals, and the one probe of a half-open circuit.
use agentback.Base.{
  ℕ, ◌+◌, ◌-◌, ◌≤◌, ◌<◌, ◌≡◌, String, Bool, true, false, Option, none, some, arith, eq_refl, Result,
  List, [], ◌∷◌, All, map, subst, sym, ◌∙◌, ok, err, if◌then◌else◌, ltb,
}
use agentback.ModelGateway.Errors.{ModelError, circuit_open}
use agentback.ModelGateway.Breaker.{
  Circuit, closed, tripped, Breaker, fresh, circuit_for, put, state, assert_closed, record_success,
  record_neutral, settle, guard,
}
use agentback.ModelGateway.Breaker.Invariant.{Inv, circuit_for-put}

circuit_for-put_self :
    (b : Breaker) (target : String) (c : Circuit) → circuit_for (put b target c) target ≡ c
circuit_for-put_self b target c = simp (circuit_for-put, eq_refl)

-- No probe of the target was started after `now`: the clock does not go back.
abbrev pub NotLater : ℕ → Option ℕ → Type 0
NotLater now none = Unit
NotLater now (some started) = started ≤ now

-- How long a refused caller is told to wait.
wait_of : ℕ → ℕ → Option ℕ → Option ℕ → ℕ
wait_of reset now none probe = 0
wait_of reset now (some opened) none = opened + reset - now
wait_of reset now (some opened) (some started) =
    if ltb now (opened + reset) then opened + reset - now else started + reset - now

-- A refusal is the breaker's own error with a wait of at least one ms; the circuit refuses at every
-- time before the wait is over, and admits the call when it is over.
pub assert_closed-refused :
    (b : Breaker) (target : String) (now : ℕ) (e : ModelError)
    → Inv b
    → NotLater now (circuit_for b target).probe_started_at
    → (assert_closed b target now).1 ≡ err e
    → (wait : ℕ) × (e ≡ circuit_open target wait)
      × (0 < wait)
      × ((d : ℕ)
          → d < wait
          → (assert_closed b target (now + d)).1 ≡ err (circuit_open target (wait - d)))
      × ((assert_closed b target (now + wait)).1 ≡ ok tt)
unfolding assert_closed wait_of
assert_closed-refused b target now e v later h =
    let c = circuit_for b target in
    (
      wait_of b.reset_after_ms now c.opened_at c.probe_started_at,
      ground (arith, v.sound target),
      ground (arith, v.sound target),
      (λ d p. ground (arith, v.sound target)),
      ground (arith, v.sound target),
    )

-- The answers to callers that ask one after the other, at these times, while nothing else is told
-- to the breaker.
unfoldable pub answers : Breaker → String → List ℕ → List (Result ModelError (Unit {0}))
unfolding assert_closed
answers b target [] = []
answers b target (now ∷ times) =
    (assert_closed b target now).1 ∷ answers (assert_closed b target now).0 target times

-- A tripped circuit whose probe started at a time.
abbrev Probing : ℕ → Breaker → String → Type 0
Probing started b target =
    ((o : ℕ) × ((circuit_for b target).opened_at ≡ some o) × (o + b.reset_after_ms ≤ started))
    × ((circuit_for b target).probe_started_at ≡ some started)

-- The time is within the lease of the probe.
abbrev pub Within : ℕ → ℕ → ℕ → Type 0
Within started reset t = (started ≤ t) × (t < started + reset)

refuses :
    (b : Breaker) (target : String) (started later : ℕ)
    → Probing started b target
    → Within started b.reset_after_ms later
    → ((assert_closed b target later).1
        ≡ err (circuit_open target (started + b.reset_after_ms - later)))
      × Probing started (assert_closed b target later).0 target
      × ((assert_closed b target later).0.reset_after_ms ≡ b.reset_after_ms)
unfolding assert_closed
refuses b target started later ((o, open', past), probe) within = (
  ground arith,
  (
    (o, ground (arith, circuit_for-put_self b target (circuit_for b target)), ground arith),
    ground (arith, circuit_for-put_self b target (circuit_for b target)),
  ),
  ground arith,
)

refused_each :
    (times : List ℕ) (b : Breaker) (target : String) (started reset : ℕ)
    → b.reset_after_ms ≡ reset
    → Probing started b target
    → All (Within started reset) times
    → answers b target times ≡ map (λ t. err (circuit_open target (started + reset - t))) times
unfolding answers
refused_each [] b target started reset r v h = λ i. []
refused_each (t ∷ times) b target started reset r v h =
    let (e, v', r') = refuses b target started t v (subst (λ k. Within started k t) (sym r) h.0) in
    let first =
      subst (λ k. (assert_closed b target t).1 ≡ err (circuit_open target (started + k - t))) r e in
    let rest =
      refused_each times (assert_closed b target t).0 target started reset (r' ∙ r) v' h.1 in
    λ i. first i ∷ rest i

admitted :
    (b : Breaker) (target : String) (now o : ℕ)
    → (circuit_for b target).opened_at ≡ some o
    → (assert_closed b target now).1 ≡ ok tt
    → Probing now (assert_closed b target now).0 target
      × ((assert_closed b target now).0.reset_after_ms ≡ b.reset_after_ms)
unfolding assert_closed
admitted b target now o t h =
    let same =
      circuit_for-put_self b target
        (record (circuit_for b target) { probe_started_at = some now }) in
    (((o, ground (arith, same), ground arith), ground (arith, same)), ground arith)

-- Once a tripped circuit has admitted a call, and while callers of that target only ask and nothing
-- else is told to the breaker, it refuses every one that asks within `resetAfterMs`, however many
-- ask, and tells each the rest of that time: one probe at a time.
pub assert_closed-single_probe :
    (b : Breaker) (target : String) (now o : ℕ) (times : List ℕ)
    → (circuit_for b target).opened_at ≡ some o
    → (assert_closed b target now).1 ≡ ok tt
    → All (Within now b.reset_after_ms) times
    → answers (assert_closed b target now).0 target times
      ≡ map (λ t. err (circuit_open target (now + b.reset_after_ms - t))) times
assert_closed-single_probe b target now o times t h within =
    let a = admitted b target now o t h in
    refused_each times (assert_closed b target now).0 target now b.reset_after_ms a.1 a.0 within

-- A probe that ends without a verdict gives its slot back: the next caller is admitted.
pub assert_closed-record_neutral :
    (b : Breaker) (target : String) (now later : ℕ)
    → (assert_closed b target now).1 ≡ ok tt
    → now ≤ later
    → (assert_closed (record_neutral (assert_closed b target now).0 target) target later).1 ≡ ok tt
unfolding assert_closed record_neutral
assert_closed-record_neutral b target now later h p =
    let b' = (assert_closed b target now).0 in
    ground (
      arith,
      circuit_for-put_self b target (record (circuit_for b target) { probe_started_at = some now }),
      circuit_for-put_self b target (circuit_for b target),
      circuit_for-put_self b' target (record (circuit_for b' target) { probe_started_at = none }),
    )

-- While the circuit is in its cooldown a guarded call is not made.
pub guard-tripped :
    {A : Type 0} (counts : ModelError → Bool) (b : Breaker) (target : String) (now done : ℕ)
    (call : Result ModelError A)
    → state b target now ≡ tripped
    → (wait : ℕ) × (0 < wait)
      × ((guard counts b target now done call).1 ≡ err (circuit_open target wait))
      × ((guard counts b target now done call).2 ≡ false)
unfolding guard assert_closed state wait_of
guard-tripped counts b target now done call h =
    let c = circuit_for b target in
    (
      wait_of b.reset_after_ms now c.opened_at c.probe_started_at,
      ground arith,
      ground arith,
      ground arith,
    )

-- A guarded call that returns closes the circuit, whatever its state was.
pub guard-closes :
    {A : Type 0} (counts : ModelError → Bool) (b : Breaker) (target : String) (now done : ℕ) (a : A)
    → (guard counts b target now done (ok a)).2 ≡ true
    → (later : ℕ) → state (guard counts b target now done (ok a)).0 target later ≡ closed
unfolding guard settle record_success state
guard-closes counts b target now done a h later =
    ground (arith, circuit_for-put_self (assert_closed b target now).0 target fresh)
