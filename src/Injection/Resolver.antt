-- ===== src/Injection/Resolver.antt =====
-- packages/context/src/resolver.ts, `getValue` of binding.ts and `getValueOrPromise` of context.ts,
-- without promises, interception proxies, key paths and custom `resolve` functions.
use agentback.Base.{
  ℕ, String, Bool, ◌&&◌, Option, none, some, List, [], ◌∷◌, ◌==◌, if◌then◌else◌, Result, ok, err,
}
use agentback.Base.Map.{Map}
use agentback.Injection.Session.{
  Session, Failure, not_bound, not_decorated, no_context, thrown, Out, answer, forked, followed,
  run_with_injection, current_binding,
}
use agentback.Injection.Scopes.{BindingScope, Context, get_binding, get_resolution_context}

-- What `@inject(key, {optional})` records of a constructor's argument or of a property.
pub record Injection : Type 0 where
  pub key : String
  pub optional : Bool

-- A class: its arguments, where one that is not decorated is `none`, and its injected properties.
pub record Class : Type 0 where
  pub name : String
  pub arguments : List (Option Injection)
  pub properties : List (String × Injection)
  pub code : ℕ

pub data Source (V : Type 0) : Type 0 where
  constant : V → Source V
  dynamic : ℕ → Source V
  class provider : Class → Source V
  alias : String → Source V

pub record Binding (V : Type 0) : Type 0 where
  pub key : String
  pub scope : BindingScope
  pub source : Source V

-- `_cache` of every binding, by binding and context; a value may be undefined, `none`.
abbrev pub Caches : Type 0 → Type 0
Caches V = ℕ → ℕ → Option (Option V)

abbrev pub put_cache : {V : Type 0} → ℕ → ℕ → Option V → Caches V → Caches V
put_cache b c v caches b' c' = if b == b' && c == c' then some v else caches b' c'

abbrev pub Answer : Type 0 → Type 0
Answer V = Out (Caches V) (Option V)

-- The bindings, and what a constructor, a provider's `value` and a factory give: user code.
pub record Program (V : Type 0) : Type 0 where
  pub bindings : ℕ → Binding V
  pub construct : ℕ → List (Option V) → Map V → Result ℕ V
  pub provide : V → Result ℕ V
  pub factory : ℕ → Result ℕ V

abbrev pub of_user : {V : Type 0} → Result ℕ V → Result Failure (Option V)
of_user (ok v) = ok (some v)
of_user (err n) = err (thrown n)

abbrev pub owner_id : Context → ℕ
owner_id [] = 0
owner_id (frame ∷ parents) = frame.id

module _ {V : Type 0} (program : Program V) where
  -- `getValue` at a smaller depth, as `getValueOrPromise` calls it.
  abbrev pub Get : Type 0
  Get = Context → ℕ → Bool → Session → Caches V → Answer V

  module _ (get : Get) where
    abbrev pub get_bound : Context → String → Bool → Session → Caches V → Option ℕ → Answer V
    get_bound ctx key optional session caches none =
        answer (if optional then ok none else err (not_bound key)) session caches
    get_bound ctx key optional session caches (some b) = get ctx b optional session caches

    -- getValueOrPromise
    unfoldable pub get_value_or_promise : Context → String → Bool → Session → Caches V → Answer V
    unfolding get_binding
    get_value_or_promise ctx key optional session caches =
        get_bound ctx key optional session caches (get_binding key ctx)

    abbrev pub resolve_at : Option Context → Injection → Session → Caches V → Answer V
    resolve_at none injection session caches = answer (err no_context) session caches
    resolve_at (some ctx) injection session caches =
        run_with_injection (λ s. get_value_or_promise ctx injection.key injection.optional s caches)
          injection.key session

    -- resolveContext, for a constructor's argument or a property
    abbrev pub resolve_context : Context → Option ℕ → Option Context
    resolve_context ctx none = some ctx
    resolve_context ctx (some b) =
        get_resolution_context (program.bindings b).scope (program.bindings b).key ctx

    -- resolve
    unfoldable pub resolve : Context → Injection → Session → Caches V → Answer V
    unfolding get_value_or_promise get_resolution_context current_binding run_with_injection
    resolve ctx injection session caches =
        resolve_at (resolve_context ctx (current_binding session)) injection session caches

    -- resolveInjectedArguments without further arguments: each one has a fork of the session, so that
    -- the session itself stays as it is.
    unfoldable pub resolve_injected_arguments :
        Class
        → Context
        → List (Option Injection)
        → Session
        → Caches V
        → Out (Caches V) (List (Option V))
    unfolding resolve
    resolve_injected_arguments c ctx [] session caches = answer (ok []) session caches
    resolve_injected_arguments c ctx (none ∷ rest) session caches =
        answer (err (not_decorated c.name)) session caches
    resolve_injected_arguments c ctx (some injection ∷ rest) session caches =
        forked session (resolve ctx injection session caches) (λ v s caches'.
          followed (resolve_injected_arguments c ctx rest s caches') (λ vs. answer (ok (v ∷ vs))))

    abbrev pub with_property : String → Option V → Map V → Map V
    with_property name none props = props
    with_property name (some v) props = (name, v) ∷ props

    -- resolveInjectedProperties: an undefined value is left out.
    unfoldable pub resolve_injected_properties :
        Context → List (String × Injection) → Session → Caches V → Out (Caches V) (Map V)
    unfolding resolve
    resolve_injected_properties ctx [] session caches = answer (ok []) session caches
    resolve_injected_properties ctx ((name, injection) ∷ rest) session caches =
        forked session (resolve ctx injection session caches) (λ v s caches'.
          followed (resolve_injected_properties ctx rest s caches')
            (λ props. answer (ok (with_property name v props))))

    -- instantiateClass
    unfoldable pub instantiate_class : Class → Context → Session → Caches V → Answer V
    unfolding resolve_injected_arguments resolve_injected_properties
    instantiate_class c ctx session caches =
        followed (resolve_injected_arguments c ctx c.arguments session caches) (λ args s caches'.
          followed (resolve_injected_properties ctx c.properties s caches')
            (λ props. answer (of_user (program.construct c.code args props))))

    -- `p.value()`
    abbrev pub provided : Option V → Session → Caches V → Answer V
    provided none session caches = answer (err no_context) session caches
    provided (some p) session caches = answer (of_user (program.provide p)) session caches

    -- The `_getValue` that `to`, `toDynamicValue`, `toClass`, `toProvider` and `toAlias` set.
    unfoldable pub value_of : Source V → Context → Bool → Session → Caches V → Answer V
    unfolding instantiate_class get_value_or_promise
    value_of (constant v) ctx optional session caches = answer (ok (some v)) session caches
    value_of (dynamic n) ctx optional session caches =
        answer (of_user (program.factory n)) session caches
    value_of (class c) ctx optional session caches = instantiate_class c ctx session caches
    value_of (provider c) ctx optional session caches =
        followed (instantiate_class c ctx session caches) provided
    value_of (alias key) ctx optional session caches =
        get_value_or_promise ctx key optional session caches
