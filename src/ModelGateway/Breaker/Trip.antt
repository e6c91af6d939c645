-- ===== src/ModelGateway/Breaker/Trip.antt =====
-- Consecutive failures trip a circuit, and no target moves the circuit of another.
use agentback.Base.{
  Bool-cases, inl, inr, ℕ, suc, ◌+◌, ◌≡◌, String, Bool, false, none, some, arith, eq_refl, List, [],
  ◌∷◌, length, Result, ok, err, if◌then◌else◌, str_eq, leb,
}
use agentback.ModelGateway.Errors.{ModelError}
use agentback.ModelGateway.Breaker.{
  Circuit, Breaker, fresh, circuit_for, put, assert_closed, record_success, fail_circuit,
  record_neutral, record_failure, settle, guard,
}
use agentback.ModelGateway.Breaker.Invariant.{Inv, record_failure-Inv, circuit_for-put}

-- A run of failed calls of one target, with the time at which each failed.
pub fail_all : Breaker → String → List ℕ → Breaker
fail_all b target [] = b
fail_all b target (t ∷ ts) = fail_all (record_failure b target t) target ts

abbrev pub last_or : ℕ → List ℕ → ℕ
last_or t [] = t
last_or t (u ∷ us) = last_or u us

-- After a non-empty run of failures with nothing else between them, the circuit is open exactly
-- when these and the failures already on record reach the threshold, and it then counts its
-- cooldown from the last failure of the run.
pub opened_at-fail_all :
    (b : Breaker) (target : String) (t : ℕ) (ts : List ℕ)
    → Inv b
    → (circuit_for (fail_all b target (t ∷ ts)) target).opened_at ≡ (
        if leb b.threshold ((circuit_for b target).failures + suc (length ts))
        then some (last_or t ts)
        else none)
unfolding fail_all record_failure
opened_at-fail_all b target t [] v = ground (
  arith,
  v.sound target,
  circuit_for-put b target target
      (fail_circuit b.threshold t (circuit_for b target).failures (circuit_for b target).opened_at),
  eq_refl target,
)
opened_at-fail_all b target t (u ∷ us) v = ground (
  arith,
  v.sound target,
  opened_at-fail_all (record_failure b target t) target u us (record_failure-Inv b target t v),
  circuit_for-put b target target
      (fail_circuit b.threshold t (circuit_for b target).failures (circuit_for b target).opened_at),
  eq_refl target,
)

module _ (b : Breaker) (target other : String) (apart : str_eq target other ≡ false) where
  circuit_for-put_other : (c : Circuit) → circuit_for (put b target c) other ≡ circuit_for b other
  circuit_for-put_other c = rw (circuit_for-put b target other c) (rw apart)

  circuit_for-assert_closed :
      (now : ℕ) → circuit_for (assert_closed b target now).0 other ≡ circuit_for b other
  unfolding assert_closed
  circuit_for-assert_closed now = ground (
    arith,
    circuit_for-put_other (circuit_for b target),
    circuit_for-put_other (record (circuit_for b target) { probe_started_at = some now }),
  )

  circuit_for-settle :
      {A : Type 0} (counts : ModelError → Bool) (done : ℕ) (r : Result ModelError A)
      → circuit_for (settle counts b target done r) other ≡ circuit_for b other
  unfolding settle record_success record_neutral record_failure
  circuit_for-settle counts done (ok a) = circuit_for-put_other fresh
  circuit_for-settle counts done (err e) = elim (Bool-cases (counts e)) [
    | inl p ↦ rw p (circuit_for-put_other _)
    | inr p ↦ rw p (circuit_for-put_other _)
  ]

-- A guarded call of one target leaves the circuit of every other target as it was.
pub circuit_for-guard :
    {A : Type 0} (counts : ModelError → Bool) (b : Breaker) (target other : String) (now done : ℕ)
    (call : Result ModelError A)
    → str_eq target other ≡ false
    → circuit_for (guard counts b target now done call).0 other ≡ circuit_for b other
unfolding guard
circuit_for-guard counts b target other now done call h = ground (
  arith,
  circuit_for-assert_closed b target other h now,
  circuit_for-settle (assert_closed b target now).0 target other h counts done call,
)
