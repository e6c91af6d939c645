-- ===== src/ModelGateway/Breaker/Invariant.antt =====
-- What holds of every circuit between two operations.
use agentback.Base.{
  ℕ, ◌+◌, ◌≤◌, ◌<◌, ◌≡◌, [], str_eq, if◌then◌else◌, String, Bool, Option, none, some, arith, Result,
  ok, err,
}
use agentback.Base.Map.{lookup, lookup-insert}
use agentback.ModelGateway.Errors.{ModelError}
use agentback.ModelGateway.Breaker.{
  Circuit, Breaker, fresh, circuit_for, put, assert_closed, record_success, record_neutral,
  record_failure, settle, guard,
}

-- The circuit is tripped exactly when its failures reach the threshold.
abbrev pub Tripped : ℕ → ℕ → Option ℕ → Type 0
Tripped threshold failures none = failures < threshold
Tripped threshold failures (some opened) = threshold ≤ failures

-- A probe is out only on a tripped circuit, after its cooldown.
abbrev pub Probed : ℕ → Option ℕ → Option ℕ → Type 0
Probed reset opened none = Unit
Probed reset none (some started) = ⊥
Probed reset (some opened) (some started) = opened + reset ≤ started

pub record IsSound (threshold reset : ℕ) (c : Circuit) : Type 0 where
  pub tripped_at : Tripped threshold c.failures c.opened_at
  pub probed : Probed reset c.opened_at c.probe_started_at

pub record Inv (b : Breaker) : Type 0 where
  pub positive : 0 < b.threshold
  pub sound : (target : String) → IsSound b.threshold b.reset_after_ms (circuit_for b target)

-- Writing one circuit leaves the others.
pub circuit_for-put :
    (b : Breaker) (target other : String) (c : Circuit)
    → circuit_for (put b target c) other ≡ (if str_eq target other then c else circuit_for b other)
unfolding circuit_for
circuit_for-put b target other c = ground (arith, lookup-insert target other c b.circuits)

put-Inv :
    (b : Breaker) (target : String) (c : Circuit)
    → Inv b
    → IsSound b.threshold b.reset_after_ms c
    → Inv (put b target c)
put-Inv b target c v h = record {
  positive = v.positive;
  sound = λ other. ground (arith, circuit_for-put b target other c, v.sound other);
}

fresh-IsSound : (threshold reset : ℕ) → 0 < threshold → IsSound threshold reset fresh
fresh-IsSound threshold reset h = ground arith

pub init-Inv :
    (threshold reset : ℕ)
    → 0 < threshold
    → Inv (record { threshold = threshold; reset_after_ms = reset; circuits = [] })
unfolding circuit_for lookup
init-Inv threshold reset h = record {
  positive = h;
  sound = λ target. fresh-IsSound threshold reset h;
}

pub assert_closed-Inv :
    (b : Breaker) (target : String) (now : ℕ) → Inv b → Inv (assert_closed b target now).0
unfolding assert_closed
assert_closed-Inv b target now v = ground (
  arith,
  put-Inv b target (circuit_for b target) v (v.sound target),
  v.sound target,
  put-Inv b target (record (circuit_for b target) { probe_started_at = some now }) v,
)

pub record_success-Inv : (b : Breaker) (target : String) → Inv b → Inv (record_success b target)
unfolding record_success
record_success-Inv b target v = put-Inv b target fresh v (fresh-IsSound _ _ v.positive)

pub record_neutral-Inv : (b : Breaker) (target : String) → Inv b → Inv (record_neutral b target)
unfolding record_neutral
record_neutral-Inv b target v = put-Inv b target _ v (ground (arith, v.sound target))

pub record_failure-Inv :
    (b : Breaker) (target : String) (now : ℕ) → Inv b → Inv (record_failure b target now)
unfolding record_failure
record_failure-Inv b target now v = put-Inv b target _ v (ground (arith, v.sound target))

module _ {A : Type 0} (counts : ModelError → Bool) (target : String) where
  settle-Inv :
      (b : Breaker) (done : ℕ) (r : Result ModelError A)
      → Inv b
      → Inv (settle counts b target done r)
  unfolding settle
  settle-Inv b done (ok a) v = record_success-Inv b target v
  settle-Inv b done (err e) v =
      ground (arith, record_failure-Inv b target done v, record_neutral-Inv b target v)

  -- A guarded call keeps the invariant, however the call ends and whether or not it is made.
  pub guard-Inv :
      (b : Breaker) (now done : ℕ) (call : Result ModelError A)
      → Inv b
      → Inv (guard counts b target now done call).0
  unfolding guard
  guard-Inv b now done call v = ground (
    arith,
    assert_closed-Inv b target now v,
    settle-Inv (assert_closed b target now).0 done call (assert_closed-Inv b target now v),
  )
