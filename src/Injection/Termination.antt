-- ===== src/Injection/Termination.antt =====
-- `getValue` ends whatever the bindings depend on, and makes a value that is kept once.
use agentback.Base.{
  ℕ, zero, suc, ◌<◌, ◌≡◌, refl, Bool, false, Option, none, some, ◌∷◌, arith, Result, ok, err,
  Bool-cases, Result-cases, inl, inr,
}
use agentback.Injection.Session.{
  of_binding, Session, Failure, on_stack, answer, followed, run_with_binding,
}
use agentback.Injection.Scopes.{Context, BindingScope, resolution_context}
use agentback.Injection.Resolver.{Program, Caches, Answer, owner_id, Get, value_of}
use agentback.Injection.Values.{
  is_transient, cached, cache_value, value_at, located_value, get_value,
}
use agentback.Injection.Bounds.{Bounded, Located, resolution_context-Located}
use agentback.Injection.Ends.{
  free, free_binding, Spec, followed-Spec, pop_binding-Spec, value_of-Spec,
}

module _ {V : Type 0} (n : ℕ) (program : Program V) where
  abbrev EndsAt : ℕ → Type 0
  EndsAt fuel =
      (ctx : Context) (b : ℕ) (optional : Bool) (session : Session) (caches : Caches V)
      → Bounded n ctx
      → b < n
      → free n session < fuel
      → Spec session (get_value program fuel ctx b optional session caches)

  module _ (fuel : ℕ) (ends : EndsAt fuel) where
    run-Spec :
        (ctx : Context) (b : ℕ) (optional : Bool) (session : Session) (caches : Caches V)
        → Bounded n ctx
        → b < n
        → free n session < suc fuel
        → Spec session (
            run_with_binding
              (λ s.
                value_of program
                  (get_value program fuel)
                  (program.bindings b).source
                  ctx
                  optional
                  s
                  caches)
              b
              session
              caches)
    unfolding run_with_binding
    run-Spec ctx b optional session caches v lt h = elim (Bool-cases (on_stack b session)) [
      | inl on ↦ rw on (record { ended = ground arith; balanced = refl })
      | inr off ↦ rw off (
          pop_binding-Spec b session _ (
            value_of-Spec n fuel program (get_value program fuel) ends (program.bindings b).source
              ctx optional (of_binding b ∷ session) caches v
              (omega (arith, free_binding n b session lt off, h))))
    ]

    value_at-Spec :
        (b : ℕ) (optional : Bool) (session : Session) (caches : Caches V) (ctx : Context)
        (kept : Option (Option V))
        → Bounded n ctx
        → b < n
        → free n session < suc fuel
        → Spec session
            (value_at program (get_value program fuel) b optional session caches ctx kept)
    value_at-Spec b optional session caches ctx (some v) bd lt h = record {
      ended = ground arith;
      balanced = refl;
    }
    value_at-Spec b optional session caches ctx none bd lt h =
        followed-Spec session _ _ (run-Spec ctx b optional session caches bd lt h)
          (λ v caches'. record { ended = ground arith; balanced = refl })

    located_value-Spec :
        (b : ℕ) (optional : Bool) (session : Session) (caches : Caches V)
        (found : Result Failure (Option Context))
        → Located n found
        → b < n
        → free n session < suc fuel
        → Spec session
            (located_value program (get_value program fuel) b optional session caches found)
    located_value-Spec b optional session caches (err e) bd lt h = record {
      ended = ground (arith, bd);
      balanced = refl;
    }
    located_value-Spec b optional session caches (ok none) bd lt h = record {
      ended = ground arith;
      balanced = refl;
    }
    located_value-Spec b optional session caches (ok (some ctx)) bd lt h =
        value_at-Spec b optional session caches ctx (cached (program.bindings b).scope b ctx caches)
          bd lt h

  -- Whatever the bindings depend on, in cycles or not, resolving one of them ends with a value or an
  -- error of the program's own, and the session is afterwards what it was: as many levels of the
  -- recursion are enough as there are bindings that are not on the stack, and one more.
  pub get_value-Spec :
      (fuel : ℕ) (ctx : Context) (b : ℕ) (optional : Bool) (session : Session) (caches : Caches V)
      → Bounded n ctx
      → b < n
      → free n session < fuel
      → Spec session (get_value program fuel ctx b optional session caches)
  unfolding get_value
  get_value-Spec zero ctx b optional session caches bd lt h = absurd (omega arith)
  get_value-Spec (suc fuel) ctx b optional session caches bd lt h =
      located_value-Spec fuel (get_value-Spec fuel) b optional session caches _
        (resolution_context-Located n (program.bindings b).scope b (program.bindings b).key optional
          ctx bd)
        lt h

ok_injective : {V : Type 0} (v w : V) → ◌≡◌ {A = Result Failure V} (ok v) (ok w) → v ≡ w
ok_injective v w h = cc

err_apart : {V : Type 0} (e : Failure) (v : V) → ◌≡◌ {A = Result Failure V} (err e) (ok v) → ⊥
err_apart e v h = cc

module _ {V : Type 0} (program : Program V) (b : ℕ) where
  abbrev scope : BindingScope
  scope = (program.bindings b).scope

  abbrev context_of : Bool → Context → Result Failure (Option Context)
  context_of optional ctx = resolution_context scope b (program.bindings b).key optional ctx

  module _ (kept : is_transient scope ≡ false) where
    caches_result :
        (o : Answer V) (found : Context) (v : Option V)
        → (followed o (cache_value scope b found)).result ≡ ok v
        → (followed o (cache_value scope b found)).caches b (owner_id found) ≡ some v
    caches_result o found v h = elim (Result-cases o.result) [
      | inl (w, p) ↦ rw p (rw kept (ground (arith, ok_injective w v (rw p at h))))
      | inr (e, p) ↦ absurd (err_apart e v (rw p at h))
    ]

    -- What `getValue` leaves in the cache.
    value_at_cached :
        (get : Get program) (optional : Bool) (session : Session) (caches : Caches V)
        (found : Context) (entry : Option (Option V)) (v : Option V)
        → caches b (owner_id found) ≡ entry
        → (value_at program get b optional session caches found entry).result ≡ ok v
        → (value_at program get b optional session caches found entry).caches b (owner_id found)
          ≡ some v
    value_at_cached get optional session caches found (some w) v e h = ground arith
    value_at_cached get optional session caches found none v e h =
        caches_result
          (run_with_binding
            (λ s. value_of program get (program.bindings b).source found optional s caches) b
            session caches)
          found v h

    located_value_cached :
        (get : Get program) (optional : Bool) (session : Session) (caches : Caches V)
        (found : Context) (v : Option V)
        → (located_value program get b optional session caches (ok (some found))).result ≡ ok v
        → (located_value program get b optional session caches (ok (some found))).caches b
            (owner_id found)
          ≡ some v
    located_value_cached get optional session caches found v h =
        value_at_cached get optional session caches found (cached scope b found caches) v
          (rw kept refl) h

    located_value_hit :
        (get : Get program) (optional : Bool) (session : Session) (caches : Caches V)
        (found : Context) (v : Option V)
        → caches b (owner_id found) ≡ some v
        → on_stack b session ≡ false
        → located_value program get b optional session caches (ok (some found))
          ≡ answer (ok v) session caches
    located_value_hit get optional session caches found v e off = rw kept (rw e (rw off refl))

    -- A binding that is not transient has its value made once in a context: after it was resolved,
    -- resolving it where the same context is found gives the same value and changes nothing.
    pub get_value_once :
        (fuel fuel' : ℕ) (ctx ctx' found : Context) (optional optional' : Bool)
        (session session' : Session) (caches : Caches V) (v : Option V)
        → context_of optional ctx ≡ ok (some found)
        → context_of optional' ctx' ≡ ok (some found)
        → (get_value program (suc fuel) ctx b optional session caches).result ≡ ok v
        → on_stack b session' ≡ false
        → let after = (get_value program (suc fuel) ctx b optional session caches).caches in
          get_value program (suc fuel') ctx' b optional' session' after
          ≡ answer (ok v) session' after
    unfolding get_value
    get_value_once fuel fuel' ctx ctx' found optional optional' session session' caches v at at' h
          off =
        rw (at, at')
          (located_value_hit (get_value program fuel') optional' session' _ found v
            (located_value_cached (get_value program fuel) optional session caches found v
              (rw at at h))
            off)
