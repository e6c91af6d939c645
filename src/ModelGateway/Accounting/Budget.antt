-- ===== src/ModelGateway/Accounting/Budget.antt =====
-- A run of calls in one scope, one after the other: what the scopes are charged, and what the meter
-- is told.
use agentback.Base.{
  ℕ, ◌+◌, ◌≤◌, ◌≡◌, ◌≢◌, refl, ◌∙◌, String, Option, none, some, List, [], ◌∷◌, ◌++◌, arith,
  Option-cases, ◌⊎◌, inl, inr, Result, ok, err,
}
use native.Mathlib.Nat.{add-zero}
use agentback.ModelGateway.Errors.{ModelError}
use agentback.ModelGateway.Accounting.{
  ModelScope, Chain, UsageEvent, Generated, total_tokens, preflight, refuse, settle, spend,
  wrap_generate,
}

-- The calls of one scope, one after the other, each with the label of its model.
pub calls : Chain → List (String × Result ModelError Generated) → Chain × List UsageEvent
calls scope [] = (scope, [])
calls scope ((label, call) ∷ more) =
    let o = wrap_generate scope label call in
    let (scope', events) = calls o.scope more in (scope', o.events ++ events)

abbrev pub units : List UsageEvent → ℕ
units [] = 0
units (e ∷ es) = e.units + units es

units-append : (xs ys : List UsageEvent) → units (xs ++ ys) ≡ units xs + units ys
units-append [] ys = omega arith
units-append (x ∷ xs) ys = omega (arith, units-append xs ys)

-- The scopes of two chains, each charged `n` tokens between them and with its budget kept.
abbrev pub Charged : ℕ → Chain → Chain → Type 0
Charged n [] [] = Unit
Charged n (s ∷ ss) (t ∷ ts) =
    (t.tokens_spent ≡ s.tokens_spent + n) × (t.token_budget ≡ s.token_budget) × Charged n ss ts
Charged n [] (t ∷ ts) = ⊥
Charged n (s ∷ ss) [] = ⊥

Charged-refl : (ss : Chain) → Charged 0 ss ss
Charged-refl [] = tt
Charged-refl (s ∷ ss) = (omega arith, refl, Charged-refl ss)

Charged-trans :
    (m n : ℕ) (ss ts us : Chain) → Charged m ss ts → Charged n ts us → Charged (m + n) ss us
Charged-trans m n [] [] [] h k = tt
Charged-trans m n [] [] (u ∷ us) h k = k
Charged-trans m n [] (t ∷ ts) us h k = absurd h
Charged-trans m n (s ∷ ss) [] us h k = absurd h
Charged-trans m n (s ∷ ss) (t ∷ ts) [] h k = k
Charged-trans m n (s ∷ ss) (t ∷ ts) (u ∷ us) h k =
    (omega arith, k.1 ∙ h.1, Charged-trans m n ss ts us h.2 k.2)

spend-Charged : (n : ℕ) (ss : Chain) → Charged n ss (spend n ss)
unfolding spend
spend-Charged n [] = tt
spend-Charged n (s ∷ ss) = (refl, refl, spend-Charged n ss)

refuse-Charged : (e : ModelError) (ss : Chain) → Charged 0 ss (refuse ss e)
refuse-Charged e [] = tt
refuse-Charged e (s ∷ ss) = (omega arith, refl, Charged-refl ss)

wrap_generate-Charged :
    (scope : Chain) (label : String) (call : Result ModelError Generated)
    → Charged
        (units (wrap_generate scope label call).events)
        scope
        (wrap_generate scope label call).scope
unfolding wrap_generate
wrap_generate-Charged scope label call = elim (Option-cases (preflight scope)) [
  | inl p ↦ rw p (settled call)
  | inr (e, p) ↦ rw p (refuse-Charged e scope)
]
  where
    settled :
        (r : Result ModelError Generated)
        → Charged (units (settle scope label r).events) scope (settle scope label r).scope
    settled (ok g) = rw add-zero (spend-Charged (total_tokens g.usage) scope)
    settled (err e) = rw add-zero (spend-Charged (total_tokens none) scope)

-- Over any run of calls, every scope of the chain is charged exactly the units that the meter was
-- told of, and keeps its budget.
pub calls-Charged :
    (scope : Chain) (cs : List (String × Result ModelError Generated))
    → Charged (units (calls scope cs).1) scope (calls scope cs).0
unfolding calls
calls-Charged scope [] = Charged-refl scope
calls-Charged scope ((label, call) ∷ more) =
    let o = wrap_generate scope label call in
    rw (units-append o.events (calls o.scope more).1) (
      Charged-trans (units o.events) (units (calls o.scope more).1) scope o.scope
        (calls o.scope more).0 (wrap_generate-Charged scope label call)
        (calls-Charged o.scope more))

abbrev SpentUp : ModelScope → Option ℕ → Type 0
SpentUp s none = ⊥
SpentUp s (some budget) = budget ≤ s.tokens_spent

-- Some scope of the chain has spent its budget.
abbrev pub Exhausted : Chain → Type 0
Exhausted [] = ⊥
Exhausted (s ∷ ss) = SpentUp s s.token_budget ⊎ Exhausted ss

preflight-Exhausted : (ss : Chain) → Exhausted ss → preflight ss ≢ none
unfolding preflight
preflight-Exhausted [] h p = h
preflight-Exhausted (s ∷ ss) (inl h) p = ground arith
preflight-Exhausted (s ∷ ss) (inr h) p = ground (arith, preflight-Exhausted ss h)

refuse-Exhausted : (e : ModelError) (ss : Chain) → Exhausted ss → Exhausted (refuse ss e)
refuse-Exhausted e [] h = h
refuse-Exhausted e (s ∷ ss) h = h

-- In a chain where some scope has spent its budget no call of a run is made: the meter is told of
-- nothing, and no scope is charged.
pub calls-Exhausted :
    (scope : Chain) (cs : List (String × Result ModelError Generated))
    → Exhausted scope
    → ((calls scope cs).1 ≡ []) × Charged 0 scope (calls scope cs).0
unfolding calls wrap_generate
calls-Exhausted scope [] h = (refl, Charged-refl scope)
calls-Exhausted scope ((label, call) ∷ more) h = elim (Option-cases (preflight scope)) [
  | inl p ↦ absurd (preflight-Exhausted scope h p)
  | inr (e, p) ↦
      let ih = calls-Exhausted (refuse scope e) more (refuse-Exhausted e scope h) in
      rw p (ih.0, Charged-trans 0 0 scope (refuse scope e) _ (refuse-Charged e scope) ih.1)
]
