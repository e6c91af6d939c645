-- ===== src/ModelGateway/Breaker.antt =====
-- packages/model-gateway/src/breaker.ts: circuits by target, and the guard around a call. The clock
-- is an argument of each operation, whose readings within one operation are one value.
pub mod Invariant
pub mod Probe
pub mod Trip
use agentback.Base.{
  ℕ, ◌+◌, ◌-◌, String, Bool, true, false, ◌&&◌, Option, none, some, ltb, leb, if◌then◌else◌, Result,
  ok, err,
}
use agentback.Base.Map.{Map, lookup, insert}
use agentback.ModelGateway.Errors.{ModelError, circuit_open}

pub data CircuitState : Type 0 where
  closed tripped half_open : CircuitState

pub record Circuit : Type 0 where
  pub failures : ℕ
  pub opened_at : Option ℕ
  pub probe_started_at : Option ℕ

pub record Breaker : Type 0 where
  pub threshold : ℕ
  pub reset_after_ms : ℕ
  pub circuits : Map Circuit

abbrev pub fresh : Circuit
fresh = record { failures = 0; opened_at = none; probe_started_at = none }

abbrev pub or_fresh : Option Circuit → Circuit
or_fresh none = fresh
or_fresh (some c) = c

-- The circuit of a target; the code also stores a fresh one, which `put` does below.
unfoldable pub circuit_for : Breaker → String → Circuit
circuit_for b target = or_fresh (lookup target b.circuits)

abbrev pub put : Breaker → String → Circuit → Breaker
put b target c = record b { circuits = insert target c b.circuits }

-- `now - opened >= resetAfterMs`, with the subtraction moved over.
abbrev pub state_at : ℕ → ℕ → Option ℕ → CircuitState
state_at reset now none = closed
state_at reset now (some opened) = if leb (opened + reset) now then half_open else tripped

unfoldable pub state : Breaker → String → ℕ → CircuitState
state b target now = state_at b.reset_after_ms now (circuit_for b target).opened_at

-- The lease check of a half-open circuit.
abbrev pub admit_probe : String → ℕ → ℕ → Circuit → Option ℕ → Result ModelError Circuit
admit_probe target reset now c none = ok (record c { probe_started_at = some now })
admit_probe target reset now c (some started) =
    if ltb now (started + reset)
    then err (circuit_open target (started + reset - now))
    else ok (record c { probe_started_at = some now })

abbrev pub admit : String → ℕ → ℕ → Circuit → Option ℕ → Result ModelError Circuit
admit target reset now c none = ok c
admit target reset now c (some opened) =
    if ltb now (opened + reset)
    then err (circuit_open target (opened + reset - now))
    else admit_probe target reset now c c.probe_started_at

abbrev store : Breaker → String → Circuit → Result ModelError Circuit → Breaker
store b target c (ok c') = put b target c'
store b target c (err e) = put b target c

abbrev failed_of : Result ModelError Circuit → Result ModelError (Unit {0})
failed_of (ok c) = ok tt
failed_of (err e) = err e

unfoldable pub assert_closed : Breaker → String → ℕ → Breaker × Result ModelError (Unit {0})
assert_closed b target now =
    let c = circuit_for b target in
    let r = admit target b.reset_after_ms now c c.opened_at in (store b target c r, failed_of r)

unfoldable pub record_success : Breaker → String → Breaker
record_success b target = put b target fresh

unfoldable pub record_neutral : Breaker → String → Breaker
record_neutral b target = put b target (record (circuit_for b target) { probe_started_at = none })

abbrev pub fail_circuit : ℕ → ℕ → ℕ → Option ℕ → Circuit
fail_circuit threshold now failures none = record {
  failures = failures + 1;
  opened_at = if leb threshold (failures + 1) then some now else none;
  probe_started_at = none;
}
fail_circuit threshold now failures (some opened) = record {
  failures = failures + 1;
  opened_at = some now;
  probe_started_at = none;
}

unfoldable pub record_failure : Breaker → String → ℕ → Breaker
record_failure b target now =
    let c = circuit_for b target in
    put b target (fail_circuit b.threshold now c.failures c.opened_at)

-- The `try` of breakerPolicy's `guard`: what the call's end does to the circuit.
unfoldable pub settle :
    {A : Type 0} → (ModelError → Bool) → Breaker → String → ℕ → Result ModelError A → Breaker
settle counts b target done (ok a) = record_success b target
settle counts b target done (err e) =
    if counts e then record_failure b target done else record_neutral b target

-- `guard` of breakerPolicy. `call` is how the wrapped call would end, at `done`; `counts` is
-- countsAgainstHealth. The last part says whether the call was made.
abbrev guarded :
    {A : Type 0}
    → (ModelError → Bool)
    → String
    → ℕ
    → Result ModelError A
    → Breaker × Result ModelError (Unit {0})
    → Breaker × Result ModelError A × Bool
guarded counts target done call (b, ok _) = (settle counts b target done call, call, true)
guarded counts target done call (b, err e) = (b, err e, false)

unfoldable pub guard :
    {A : Type 0}
    → (ModelError → Bool)
    → Breaker
    → String
    → ℕ
    → ℕ
    → Result ModelError A
    → Breaker × Result ModelError A × Bool
guard counts b target now done call = guarded counts target done call (assert_closed b target now)
