-- ===== src/Injection/Bounds.antt =====
-- Contexts whose registries name bindings below a bound: so does the context that a binding is
-- resolved in.
use agentback.Base.{
  ℕ, ◌<◌, ◌≡◌, ◌≢◌, String, Bool, true, false, not, Option, none, some, [], ◌∷◌, All, arith, Result,
  ok, err, Option-cases, inl, inr, if_rule,
}
use agentback.Base.Map.{lookup, has}
use agentback.Injection.Session.{Failure, no_scope, not_visible, out_of_fuel}
use agentback.Injection.Scopes.{
  BindingScope, transient, context, singleton, application, server, request, Frame, Context,
  get_binding, get_owner_context, get_scoped_context, get_resolution_context, or_this, refuse,
  is_visible_to, is_scoped, check_visible, located, resolution_context,
}

-- The registries of a context name bindings below a bound.
abbrev pub Bounded : ℕ → Context → Type 0
Bounded n ctx =
    All (λ (frame : Frame). (key : String) (b : ℕ) → lookup key frame.registry ≡ some b → b < n) ctx

pub get_binding-lt :
    (n : ℕ) (key : String) (ctx : Context) (b : ℕ)
    → Bounded n ctx
    → get_binding key ctx ≡ some b
    → b < n
unfolding get_binding
get_binding-lt n key [] b v h = absurd (ground arith)
get_binding-lt n key (frame ∷ parents) b v h = elim (Option-cases (lookup key frame.registry)) [
  | inl p ↦ get_binding-lt n key parents b v.1 (ground arith)
  | inr (c, p) ↦ ground (arith, v.0 key c)
]

module _ (n : ℕ) where
  abbrev pub Found : Option Context → Type 0
  Found none = Unit {0}
  Found (some ctx) = Bounded n ctx

  get_owner_context-Found :
      (key : String) (ctx : Context) → Bounded n ctx → Found (get_owner_context key ctx)
  unfolding get_owner_context
  get_owner_context-Found key [] v = tt
  get_owner_context-Found key (frame ∷ parents) v =
      if_rule Found (has key frame.registry) (some (frame ∷ parents))
        (get_owner_context key parents) (λ _. v) (λ _. get_owner_context-Found key parents v.1)

  get_scoped_context-Found :
      (scope : BindingScope) (ctx : Context) → Bounded n ctx → Found (get_scoped_context scope ctx)
  unfolding get_scoped_context
  get_scoped_context-Found scope [] v = tt
  get_scoped_context-Found scope (frame ∷ parents) v =
      if_rule Found _ (some (frame ∷ parents)) (get_scoped_context scope parents) (λ _. v)
        (λ _. get_scoped_context-Found scope parents v.1)

  or_this-Found :
      (ctx : Context) (found : Option Context)
      → Bounded n ctx
      → Found found
      → Found (or_this ctx found)
  or_this-Found ctx none v h = v
  or_this-Found ctx (some c) v h = h

  pub get_resolution_context-Found :
      (scope : BindingScope) (key : String) (ctx : Context)
      → Bounded n ctx
      → Found (get_resolution_context scope key ctx)
  unfolding get_resolution_context
  get_resolution_context-Found transient key ctx v = v
  get_resolution_context-Found context key ctx v = v
  get_resolution_context-Found singleton key ctx v = get_owner_context-Found key ctx v
  get_resolution_context-Found application key ctx v = get_scoped_context-Found application ctx v
  get_resolution_context-Found server key ctx v = get_scoped_context-Found server ctx v
  get_resolution_context-Found request key ctx v =
      or_this-Found ctx (get_scoped_context request ctx) v (get_scoped_context-Found request ctx v)

  abbrev pub Located : Result Failure (Option Context) → Type 0
  Located (ok found) = Found found
  Located (err e) = e ≢ out_of_fuel

  refuse-Located : (optional : Bool) (e : Failure) → e ≢ out_of_fuel → Located (refuse optional e)
  refuse-Located true e h = tt
  refuse-Located false e h = h

  check_visible-Located :
      (optional : Bool) (b : ℕ) (owner : Option Context) (found : Context)
      → Bounded n found
      → Located (check_visible optional b owner found)
  check_visible-Located optional b none found v = v
  check_visible-Located optional b (some owner) found v =
      if_rule Located (not (is_visible_to owner found)) (refuse optional (not_visible b))
        (ok (some found)) (λ _. refuse-Located optional (not_visible b) (ground arith)) (λ _. v)

  located-Located :
      (scope : BindingScope) (b : ℕ) (optional : Bool) (owner found : Option Context)
      → Found found
      → Located (located scope b optional owner found)
  located-Located scope b optional owner none v =
      if_rule Located (is_scoped scope) (refuse optional (no_scope b)) (ok none)
        (λ _. refuse-Located optional (no_scope b) (ground arith)) (λ _. tt)
  located-Located scope b optional owner (some found) v =
      check_visible-Located optional b owner found v

  pub resolution_context-Located :
      (scope : BindingScope) (b : ℕ) (key : String) (optional : Bool) (ctx : Context)
      → Bounded n ctx
      → Located (resolution_context scope b key optional ctx)
  unfolding resolution_context
  resolution_context-Located scope b key optional ctx v =
      located-Located scope b optional (get_owner_context key ctx)
        (get_resolution_context scope key ctx) (get_resolution_context-Found scope key ctx v)
