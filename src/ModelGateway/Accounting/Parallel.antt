-- ===== src/ModelGateway/Accounting/Parallel.antt =====
-- Calls of one scope that overlap: `wrapGenerate` and `wrapStream` wait for the model between
-- `preflight` and `settle`, packages/model-gateway/src/accounting.ts.
use agentback.Base.{
  ℕ, zero, suc, ◌+◌, ◌*◌, ◌-◌, ◌≤◌, ◌<◌, ◌≡◌, refl, sym, subst, String, Option, none, some, List,
  [], ◌∷◌, ◌++◌, arith, Option-cases, inl, inr, Result, ok, err, All,
}
use native.Mathlib.Nat.{mul-suc}
use agentback.ModelGateway.Errors.{ModelError}
use agentback.ModelGateway.Accounting.{
  ModelScope, Chain, UsageEvent, Generated, total_tokens, preflight, refuse, settle, spend,
  wrap_generate,
}

-- The chain of scopes, the calls that are with their models, and what the meter was told.
pub record Metered : Type 0 where
  pub scope : Chain
  pub in_flight : ℕ
  pub events : List UsageEvent

-- A call starts, or one of those in flight ends.
pub data Move : Type 0 where
  starts : Move
  ends : String → Result ModelError Generated → Move

abbrev pub start_over : Metered → Option ModelError → Metered
start_over s none = record s { in_flight = s.in_flight + 1 }
start_over s (some e) = record s { scope = refuse s.scope e }

abbrev pub end_one : Metered → String → Result ModelError Generated → ℕ → Metered
end_one s label r zero = s
end_one s label r (suc others) = record s {
  scope = (settle s.scope label r).scope;
  in_flight = others;
  events = s.events ++ (settle s.scope label r).events;
}

unfoldable pub step : Metered → Move → Metered
unfolding preflight spend
step s starts = start_over s (preflight s.scope)
step s (ends label r) = end_one s label r s.in_flight

unfoldable pub run : Metered → List Move → Metered
unfolding step
run s [] = s
run s (m ∷ ms) = run (step s m) ms

module _ (limit k : ℕ) where
  -- A call reports at most `limit` tokens, and at most `k` calls are in flight at once.
  abbrev pub Reports : Result ModelError Generated → Type 0
  Reports (ok g) = total_tokens g.usage ≤ limit
  Reports (err e) = Unit

  abbrev pub Moderate : Metered → List Move → Type 0
  Moderate s [] = Unit
  Moderate s (starts ∷ ms) = (s.in_flight < k) × Moderate (step s starts) ms
  Moderate s (ends label r ∷ ms) = Reports r × Moderate (step s (ends label r)) ms

  -- What the calls in flight may report.
  load : ℕ → ℕ
  load zero = 0
  load (suc n) = load n + limit

  load-mul : (n : ℕ) → load n ≡ limit * n
  unfolding load
  load-mul zero = omega arith
  load-mul (suc n) = omega (arith, load-mul n, mul-suc limit n)

  load-le : (n m : ℕ) → n ≤ m → load n ≤ load m
  unfolding load
  load-le zero m h = omega arith
  load-le (suc n) zero h = absurd (omega arith)
  load-le (suc n) (suc m) h = omega (arith, load-le n m (omega arith))

  -- A scope within its budget and so many tokens more.
  abbrev WithinScope : ℕ → ModelScope → Option ℕ → Type 0
  WithinScope more s none = Unit
  WithinScope more s (some budget) = s.tokens_spent + more ≤ budget + (load k - 1)

  abbrev WithinLoad : ℕ → Chain → Type 0
  WithinLoad more = All (λ s. WithinScope more s s.token_budget)

  started : (n : ℕ) (ss : Chain) → n < k → preflight ss ≡ none → WithinLoad (load (suc n)) ss
  unfolding preflight
  started n [] h p = tt
  started n (s ∷ ss) h p = ground (arith, started n ss, load-le (suc n) k)

  spent :
      (n t : ℕ) (ss : Chain)
      → t ≤ limit
      → WithinLoad (load (suc n)) ss
      → WithinLoad (load n) (spend t ss)
  unfolding spend load
  spent n t [] h w = tt
  spent n t (s ∷ ss) h w = ground (arith, spent n t ss)

  refused : (n : ℕ) (e : ModelError) (ss : Chain) → WithinLoad n ss → WithinLoad n (refuse ss e)
  refused n e [] w = tt
  refused n e (s ∷ ss) w = w

  settled :
      (n : ℕ) (label : String) (r : Result ModelError Generated) (ss : Chain)
      → Reports r
      → WithinLoad (load (suc n)) ss
      → WithinLoad (load n) (settle ss label r).scope
  settled n label (ok g) ss h w = spent n (total_tokens g.usage) ss h w
  settled n label (err e) ss h w =
      spent n (total_tokens none) ss (unfold total_tokens in omega arith) w

  abbrev Bounded : Metered → Type 0
  Bounded s = WithinLoad (load s.in_flight) s.scope

  start-Bounded :
      (s : Metered) (o : Option ModelError)
      → preflight s.scope ≡ o
      → s.in_flight < k
      → Bounded s
      → Bounded (start_over s o)
  start-Bounded s none p h w =
      subst (λ n. WithinLoad (load n) s.scope) (omega arith) (started s.in_flight s.scope h p)
  start-Bounded s (some e) p h w = refused (load s.in_flight) e s.scope w

  end-Bounded :
      (s : Metered) (label : String) (r : Result ModelError Generated) (n : ℕ)
      → s.in_flight ≡ n
      → Reports r
      → Bounded s
      → Bounded (end_one s label r n)
  end-Bounded s label r zero p h w = w
  end-Bounded s label r (suc n) p h w =
      settled n label r s.scope h (subst (λ i. WithinLoad (load i) s.scope) p w)

  run-Bounded : (ms : List Move) (s : Metered) → Moderate s ms → Bounded s → Bounded (run s ms)
  unfolding run step
  run-Bounded [] s h w = w
  run-Bounded (starts ∷ ms) s h w =
      run-Bounded ms (step s starts) h.1 (start-Bounded s (preflight s.scope) refl h.0 w)
  run-Bounded (ends label r ∷ ms) s h w =
      run-Bounded ms (step s (ends label r)) h.1 (end-Bounded s label r s.in_flight refl h.0 w)

  -- A scope has spent at most so much more than its budget.
  abbrev OverBy : ℕ → ModelScope → Option ℕ → Type 0
  OverBy n s none = Unit
  OverBy n s (some budget) = s.tokens_spent ≤ budget + n

  abbrev pub Overrun : ℕ → Chain → Type 0
  Overrun n = All (λ s. OverBy n s s.token_budget)

  WithinLoad-Overrun : (more : ℕ) (ss : Chain) → WithinLoad more ss → Overrun (limit * k - 1) ss
  WithinLoad-Overrun more [] w = tt
  WithinLoad-Overrun more (s ∷ ss) w = (one s.token_budget w.0, WithinLoad-Overrun more ss w.1)
    where
      one : (b : Option ℕ) → WithinScope more s b → OverBy (limit * k - 1) s b
      one none h = tt
      one (some budget) h = omega (arith, load-mul k)

  Overrun-WithinLoad : (ss : Chain) → Overrun (limit * k - 1) ss → WithinLoad 0 ss
  Overrun-WithinLoad [] w = tt
  Overrun-WithinLoad (s ∷ ss) w = (one s.token_budget w.0, Overrun-WithinLoad ss w.1)
    where
      one : (b : Option ℕ) → OverBy (limit * k - 1) s b → WithinScope 0 s b
      one none h = tt
      one (some budget) h = omega (arith, load-mul k)

  -- Calls may overlap in any order: if at most `k` of them are in flight at once, and each reports at
  -- most `limit` tokens, every scope of a chain in which each scope starts at most `limit * k - 1`
  -- tokens over its budget stays at most so much over it, however many calls are made.
  pub run-Overrun :
      (s : Metered) (ms : List Move)
      → s.in_flight ≡ 0
      → Moderate s ms
      → Overrun (limit * k - 1) s.scope
      → Overrun (limit * k - 1) (run s ms).scope
  unfolding load
  run-Overrun s ms idle h w = WithinLoad-Overrun (load (run s ms).in_flight) (run s ms).scope (
      run-Bounded ms s h
        (subst (λ n. WithinLoad (load n) s.scope) (sym idle) (Overrun-WithinLoad s.scope w)))

-- A call that overlaps with no other one is `wrap_generate`.
pub run-wrap_generate :
    (scope : Chain) (label : String) (call : Result ModelError Generated)
    → let s : Metered = record { scope = scope; in_flight = 0; events = [] } in
      let o = wrap_generate scope label call in
      run s (starts ∷ ends label call ∷ [])
      ≡ record { scope = o.scope; in_flight = 0; events = o.events }
unfolding run step wrap_generate
run-wrap_generate scope label call = elim (Option-cases (preflight scope)) [
  | inl p ↦ rw p refl
  | inr (e, p) ↦ rw p refl
]
