-- ===== src/Injection/Session.antt =====
-- packages/context/src/resolution-session.ts. A binding is known by its number. The stack is a list
-- with its top in front, and `tryWithFinally` runs the final action on both ways out.
use agentback.Base.{
  ℕ, String, Bool, false, Option, none, some, List, [], ◌∷◌, ◌==◌, any, if◌then◌else◌, Result, ok,
  err,
}

pub data Element : Type 0 where
  of_binding : ℕ → Element
  of_injection : String → Element

abbrev pub Session : Type 0
Session = List Element

pub data Failure : Type 0 where
  circular : ℕ → Failure
  top_not_binding top_not_injection : Failure
  not_bound not_decorated : String → Failure
  no_scope not_visible : ℕ → Failure
  no_context : Failure  -- the `TypeError` of a call on undefined
  thrown : ℕ → Failure  -- by a constructor or a factory
  out_of_fuel : Failure

-- isBinding, with the test of pushBinding on its value
abbrev pub is_at : ℕ → Element → Bool
is_at b (of_binding i) = i == b
is_at b (of_injection name) = false

abbrev pub on_stack : ℕ → Session → Bool
on_stack b session = any (is_at b) session

-- What a call returns or throws, and the session and the rest of the state after it.
pub record Out (C R : Type 0) : Type 0 where
  pub result : Result Failure R
  pub session : Session
  pub caches : C

module _ {C R : Type 0} where
  abbrev pop_binding_over : Session → Result Failure R → C → Out C R
  pop_binding_over [] r caches = record {
    result = err top_not_binding;
    session = [];
    caches = caches;
  }
  pop_binding_over (of_binding b ∷ rest) r caches = record {
    result = r;
    session = rest;
    caches = caches;
  }
  pop_binding_over (of_injection name ∷ rest) r caches = record {
    result = err top_not_binding;
    session = rest;
    caches = caches;
  }

  -- popBinding, as the final action of a call: what it throws takes the place of the result.
  abbrev pub pop_binding : Out C R → Out C R
  pop_binding o = pop_binding_over o.session o.result o.caches

  abbrev pop_injection_over : Session → Result Failure R → C → Out C R
  pop_injection_over [] r caches = record {
    result = err top_not_injection;
    session = [];
    caches = caches;
  }
  pop_injection_over (of_binding b ∷ rest) r caches = record {
    result = err top_not_injection;
    session = rest;
    caches = caches;
  }
  pop_injection_over (of_injection name ∷ rest) r caches = record {
    result = r;
    session = rest;
    caches = caches;
  }

  -- popInjection
  abbrev pub pop_injection : Out C R → Out C R
  pop_injection o = pop_injection_over o.session o.result o.caches

  -- runWithBinding; pushBinding refuses a binding that is on the stack.
  unfoldable pub run_with_binding : (Session → Out C R) → ℕ → Session → C → Out C R
  run_with_binding action b session caches =
      if on_stack b session
      then record { result = err (circular b); session = session; caches = caches }
      else pop_binding (action (of_binding b ∷ session))

  -- runWithInjection
  unfoldable pub run_with_injection : (Session → Out C R) → String → Session → Out C R
  run_with_injection action name session = pop_injection (action (of_injection name ∷ session))

abbrev pub answer : {C R : Type 0} → Result Failure R → Session → C → Out C R
answer r session caches = record { result = r; session = session; caches = caches }

module _ {C R S : Type 0} where
  abbrev bind_over : Result Failure R → Session → C → (R → Session → C → Out C S) → Out C S
  bind_over (ok r) session caches k = k r session caches
  bind_over (err e) session caches k = answer (err e) session caches

  -- What comes after a call that returns, in the session that is given; `forked` is for a call that
  -- worked on a fork of the session.
  abbrev pub forked : Session → Out C R → (R → Session → C → Out C S) → Out C S
  forked session o k = bind_over o.result session o.caches k

  abbrev pub followed : Out C R → (R → Session → C → Out C S) → Out C S
  followed o k = bind_over o.result o.session o.caches k

-- currentBinding
unfoldable pub current_binding : Session → Option ℕ
current_binding [] = none
current_binding (of_binding b ∷ rest) = some b
current_binding (of_injection name ∷ rest) = current_binding rest

-- bindingStack
unfoldable pub binding_stack : Session → List ℕ
binding_stack [] = []
binding_stack (of_binding b ∷ rest) = b ∷ binding_stack rest
binding_stack (of_injection name ∷ rest) = binding_stack rest
