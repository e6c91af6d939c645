-- ===== src/Injection/Values.antt =====
-- `getValue`, packages/context/src/binding.ts. The depth of the recursion is the fuel.
use agentback.Base.{
  ℕ, zero, suc, Bool, true, false, Option, none, some, if◌then◌else◌, Result, ok, err,
}
use agentback.Injection.Session.{
  Session, Failure, circular, out_of_fuel, on_stack, answer, followed, run_with_binding,
}
use agentback.Injection.Scopes.{BindingScope, transient, Context, resolution_context}
use agentback.Injection.Resolver.{Program, Caches, put_cache, Answer, owner_id, Get, value_of}

abbrev pub is_transient : BindingScope → Bool
is_transient transient = true
is_transient _ = false

module _ {V : Type 0} where
  abbrev pub cached : BindingScope → ℕ → Context → Caches V → Option (Option V)
  cached scope b ctx caches = if is_transient scope then none else caches b (owner_id ctx)

  -- _cacheValue
  abbrev pub cache_value : BindingScope → ℕ → Context → Option V → Session → Caches V → Answer V
  cache_value scope b ctx v session caches =
      answer (ok v) session
        (if is_transient scope then caches else put_cache b (owner_id ctx) v caches)

module _ {V : Type 0} (program : Program V) where
  -- Without a cached value the binding is put on the stack and its value made; with one, only the copy
  -- of the session that is kept for a proxy gets the binding, and refuses it if it is there.
  abbrev pub value_at :
      Get program → ℕ → Bool → Session → Caches V → Context → Option (Option V) → Answer V
  value_at get b optional session caches ctx (some v) =
      answer (if on_stack b session then err (circular b) else ok v) session caches
  value_at get b optional session caches ctx none =
      followed
        (run_with_binding
          (λ s. value_of program get (program.bindings b).source ctx optional s caches) b session
          caches)
        (cache_value (program.bindings b).scope b ctx)

  abbrev pub located_value :
      Get program → ℕ → Bool → Session → Caches V → Result Failure (Option Context) → Answer V
  located_value get b optional session caches (err e) = answer (err e) session caches
  located_value get b optional session caches (ok none) = answer (ok none) session caches
  located_value get b optional session caches (ok (some ctx)) =
      value_at get b optional session caches ctx (cached (program.bindings b).scope b ctx caches)

  -- getValue
  unfoldable pub get_value : ℕ → Get program
  unfolding value_of run_with_binding resolution_context
  get_value zero ctx b optional session caches = answer (err out_of_fuel) session caches
  get_value (suc fuel) ctx b optional session caches =
      located_value (get_value fuel) b optional session caches
        (resolution_context (program.bindings b).scope b (program.bindings b).key optional ctx)
