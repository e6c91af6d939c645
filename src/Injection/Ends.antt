-- ===== src/Injection/Ends.antt =====
-- Every resolution comes to an end, and leaves its session as it was.
use agentback.Base.{
  ℕ, zero, suc, ◌+◌, ◌≤◌, ◌<◌, ◌≡◌, ◌≢◌, refl, String, Bool, true, false, not, Option, none, some,
  List, [], ◌∷◌, arith, Result, ok, err, Result-cases, inl, inr,
}
use agentback.Injection.Session.{
  of_binding, of_injection, Session, out_of_fuel, on_stack, Out, run_with_injection, pop_binding,
  pop_injection, current_binding, forked, followed,
}
use agentback.Injection.Scopes.{Context, get_binding}
use agentback.Injection.Resolver.{
  Injection, Class, Source, constant, dynamic, class, provider, alias, Program, Caches, of_user,
  Get, get_value_or_promise, get_bound, resolve_at, resolve, resolve_context,
  resolve_injected_arguments, resolve_injected_properties, instantiate_class, provided, value_of,
}
use agentback.Injection.Bounds.{Bounded, Found, get_binding-lt, get_resolution_context-Found}

abbrev bit : Bool → ℕ
bit true = 1
bit false = 0

-- How many of the first bindings are not on the stack.
unfoldable pub free : ℕ → Session → ℕ
free zero session = 0
free (suc n) session = bit (not (on_stack n session)) + free n session

free_injection :
    (n : ℕ) (name : String) (session : Session)
    → free n (of_injection name ∷ session) ≡ free n session
unfolding free
free_injection zero name session = refl
free_injection (suc n) name session = ground (arith, free_injection n name session)

free_beyond :
    (n b : ℕ) (session : Session) → n ≤ b → free n (of_binding b ∷ session) ≡ free n session
unfolding free
free_beyond zero b session h = refl
free_beyond (suc n) b session h = ground (arith, free_beyond n b session)

pub free_binding :
    (n b : ℕ) (session : Session)
    → b < n
    → on_stack b session ≡ false
    → suc (free n (of_binding b ∷ session)) ≡ free n session
unfolding free
free_binding zero b session h off = absurd (omega arith)
free_binding (suc n) b session h off =
    ground (arith, free_binding n b session, free_beyond n b session)

-- A call ended within its fuel, and left the session as it was.
pub record Spec {C R : Type 0} (session : Session) (o : Out C R) : Type 0 where
  pub ended : o.result ≢ err out_of_fuel
  pub balanced : o.session ≡ session

module _ {C R : Type 0} where
  pop_injection-Spec :
      (name : String) (session : Session) (o : Out C R)
      → Spec (of_injection name ∷ session) o
      → Spec session (pop_injection o)
  pop_injection-Spec name session o v = rw v.balanced (record { ended = v.ended; balanced = refl })

  pub pop_binding-Spec :
      (b : ℕ) (session : Session) (o : Out C R)
      → Spec (of_binding b ∷ session) o
      → Spec session (pop_binding o)
  pop_binding-Spec b session o v = rw v.balanced (record { ended = v.ended; balanced = refl })

module _ {C R S : Type 0} (session : Session) (o : Out C R) (k : R → Session → C → Out C S) where
  forked-Spec :
      Spec session o
      → ((r : R) (caches : C) → Spec session (k r session caches))
      → Spec session (forked session o k)
  forked-Spec v h = elim (Result-cases o.result) [
    | inl (r, p) ↦ rw p (h r o.caches)
    | inr (e, p) ↦ rw p (record { ended = ground (arith, v.ended); balanced = refl })
  ]

  pub followed-Spec :
      Spec session o
      → ((r : R) (caches : C) → Spec session (k r session caches))
      → Spec session (followed o k)
  followed-Spec v h = rw v.balanced (forked-Spec v h)

of_user-ne : {V : Type 0} (r : Result ℕ V) → of_user r ≢ err out_of_fuel
of_user-ne (ok v) = ground arith
of_user-ne (err e) = ground arith

-- Below a bound on the numbers of bindings, with a `getValue` that ends where fewer bindings are free.
module _ {V : Type 0} (n fuel : ℕ) (program : Program V) (get : Get program)
    (ends : (ctx : Context) (b : ℕ) (optional : Bool) (session : Session) (caches : Caches V)
      → Bounded n ctx
      → b < n
      → free n session < fuel
      → Spec session (get ctx b optional session caches)) where
  get_bound-Spec :
      (ctx : Context) (key : String) (optional : Bool) (session : Session) (caches : Caches V)
      (found : Option ℕ)
      → ((b : ℕ) → found ≡ some b → b < n)
      → Bounded n ctx
      → free n session < fuel
      → Spec session (get_bound program get ctx key optional session caches found)
  get_bound-Spec ctx key optional session caches none below v h = record {
    ended = ground arith;
    balanced = refl;
  }
  get_bound-Spec ctx key optional session caches (some b) below v h =
      ends ctx b optional session caches v (below b refl) h

  get_value_or_promise-Spec :
      (ctx : Context) (key : String) (optional : Bool) (session : Session) (caches : Caches V)
      → Bounded n ctx
      → free n session < fuel
      → Spec session (get_value_or_promise program get ctx key optional session caches)
  unfolding get_value_or_promise
  get_value_or_promise-Spec ctx key optional session caches v h =
      get_bound-Spec ctx key optional session caches (get_binding key ctx)
        (λ b p. get_binding-lt n key ctx b v p) v h

  resolve_at-Spec :
      (ctx : Option Context) (injection : Injection) (session : Session) (caches : Caches V)
      → Found n ctx
      → free n session < fuel
      → Spec session (resolve_at program get ctx injection session caches)
  unfolding run_with_injection
  resolve_at-Spec none injection session caches v h = record {
    ended = ground arith;
    balanced = refl;
  }
  resolve_at-Spec (some ctx) injection session caches v h =
      pop_injection-Spec injection.key session _ (
        get_value_or_promise-Spec ctx injection.key injection.optional
          (of_injection injection.key ∷ session) caches v
          (omega (arith, free_injection n injection.key session, h)))

  resolve_context-Found :
      (ctx : Context) (current : Option ℕ)
      → Bounded n ctx
      → Found n (resolve_context program get ctx current)
  resolve_context-Found ctx none v = v
  resolve_context-Found ctx (some b) v =
      get_resolution_context-Found n (program.bindings b).scope (program.bindings b).key ctx v

  resolve-Spec :
      (ctx : Context) (injection : Injection) (session : Session) (caches : Caches V)
      → Bounded n ctx
      → free n session < fuel
      → Spec session (resolve program get ctx injection session caches)
  unfolding resolve
  resolve-Spec ctx injection session caches v h =
      resolve_at-Spec (resolve_context program get ctx (current_binding session)) injection session
        caches (resolve_context-Found ctx (current_binding session) v) h

  arguments-Spec :
      (c : Class) (ctx : Context) (params : List (Option Injection)) (session : Session)
      (caches : Caches V)
      → Bounded n ctx
      → free n session < fuel
      → Spec session (resolve_injected_arguments program get c ctx params session caches)
  unfolding resolve_injected_arguments
  arguments-Spec c ctx [] session caches v h = record { ended = ground arith; balanced = refl }
  arguments-Spec c ctx (none ∷ params) session caches v h = record {
    ended = ground arith;
    balanced = refl;
  }
  arguments-Spec c ctx (some injection ∷ params) session caches v h =
      forked-Spec session (resolve program get ctx injection session caches) _
        (resolve-Spec ctx injection session caches v h)
        (λ r caches'.
          followed-Spec session
            (resolve_injected_arguments program get c ctx params session caches') _
            (arguments-Spec c ctx params session caches' v h)
            (λ rs caches''. record { ended = ground arith; balanced = refl }))

  properties-Spec :
      (ctx : Context) (properties : List (String × Injection)) (session : Session)
      (caches : Caches V)
      → Bounded n ctx
      → free n session < fuel
      → Spec session (resolve_injected_properties program get ctx properties session caches)
  unfolding resolve_injected_properties
  properties-Spec ctx [] session caches v h = record { ended = ground arith; balanced = refl }
  properties-Spec ctx ((name, injection) ∷ properties) session caches v h =
      forked-Spec session (resolve program get ctx injection session caches) _
        (resolve-Spec ctx injection session caches v h)
        (λ r caches'.
          followed-Spec session
            (resolve_injected_properties program get ctx properties session caches') _
            (properties-Spec ctx properties session caches' v h)
            (λ rs caches''. record { ended = ground arith; balanced = refl }))

  instantiate-Spec :
      (c : Class) (ctx : Context) (session : Session) (caches : Caches V)
      → Bounded n ctx
      → free n session < fuel
      → Spec session (instantiate_class program get c ctx session caches)
  unfolding instantiate_class
  instantiate-Spec c ctx session caches v h =
      followed-Spec session _ _ (arguments-Spec c ctx c.arguments session caches v h)
        (λ args caches'.
          followed-Spec session _ _ (properties-Spec ctx c.properties session caches' v h)
            (λ props caches''. record { ended = of_user-ne _; balanced = refl }))

  pub value_of-Spec :
      (source : Source V) (ctx : Context) (optional : Bool) (session : Session) (caches : Caches V)
      → Bounded n ctx
      → free n session < fuel
      → Spec session (value_of program get source ctx optional session caches)
  unfolding value_of
  value_of-Spec (constant w) ctx optional session caches v h = record {
    ended = ground arith;
    balanced = refl;
  }
  value_of-Spec (dynamic i) ctx optional session caches v h = record {
    ended = of_user-ne _;
    balanced = refl;
  }
  value_of-Spec (class c) ctx optional session caches v h =
      instantiate-Spec c ctx session caches v h
  value_of-Spec (provider c) ctx optional session caches v h =
      followed-Spec session _ _ (instantiate-Spec c ctx session caches v h) provided-Spec
    where
      provided-Spec :
          (p : Option V) (caches : Caches V) → Spec session (provided program get p session caches)
      provided-Spec none caches = record { ended = ground arith; balanced = refl }
      provided-Spec (some p) caches = record { ended = of_user-ne _; balanced = refl }
  value_of-Spec (alias key) ctx optional session caches v h =
      get_value_or_promise-Spec ctx key optional session caches v h
