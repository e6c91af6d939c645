-- ===== src/Lifecycle/Sweep.antt =====
-- A pass of `stop` over groups, none of whose observers refuses.
use mathlib.Core.List.{reverse_aux}
use agentback.Base.{
  ℕ, ◌≡◌, ◌≢◌, refl, ap, sym, ◌∙◌, subst, String, Bool, true, not, ◌&&◌, ◌||◌, List, [], ◌∷◌, any,
  map, reverse, str_eq, eq_iff, eq_refl, arith, Result, ok, err, Bool-cases, inl, inr,
}
use agentback.Lifecycle.Groups.{Observer, Group, Options, member}
use agentback.Lifecycle.Notify.{
  stop, returns, throws, Resolved, missing, present, broken, Failure, Notices, Outcome, World,
  follow, keep_resolved, resolve_observer_pairs, notify_observers, notify_events, notify_pairs,
  notify_group, notify_each,
}
use agentback.Lifecycle.Reached.{was_stopped, Reached, notify_observers-Reached}

any-reverse_aux :
    {A : Type 0} (p : A → Bool) (xs r : List A) → any p (reverse_aux xs r) ≡ (any p xs || any p r)
any-reverse_aux p [] r = refl
any-reverse_aux p (x ∷ xs) r = ground (arith, any-reverse_aux p xs (x ∷ r))

pub any-reverse : {A : Type 0} (p : A → Bool) (xs : List A) → any p (reverse xs) ≡ any p xs
any-reverse p xs = ground (arith, any-reverse_aux p xs [])

abbrev pub has_key : String → List Observer → Bool
has_key k observers = any (λ o. str_eq o.key k) observers

module _ (world : World) where
  -- Every binding resolves.
  abbrev pub Present : List Observer → Type 0
  Present observers = (k : String) → has_key k observers ≡ true → world.resolved k ≡ present

  pub pairs-Present :
      (observers : List Observer)
      → Present observers
      → resolve_observer_pairs world observers ≡ ok (map (λ o. o.key) observers)
  unfolding resolve_observer_pairs
  pairs-Present [] p = refl
  pairs-Present (o ∷ observers) p =
      rw (p o.key (rw (eq_refl o.key) refl))
        (rw (pairs-Present observers (λ k h. p k (ground arith))) refl)

  pub member-map_key :
      (k : String) (observers : List Observer)
      → member k (map (λ o. o.key) observers) ≡ has_key k observers
  member-map_key k [] = refl
  member-map_key k (o ∷ observers) = ground (arith, member-map_key k observers)

  member-keep :
      (o : Observer) (observers : List Observer) (k : String) (res : Resolved)
      (rest : Result Failure (List String))
      → world.resolved o.key ≡ res
      → ((ks : List String)
          → rest ≡ ok ks
          → member k ks ≡ true
          → (has_key k observers ≡ true) × (world.resolved k ≡ present))
      → (keys : List String) → keep_resolved o.key res rest ≡ ok keys
      → member k keys ≡ true
      → (has_key k (o ∷ observers) ≡ true) × (world.resolved k ≡ present)
  member-keep o observers k missing rest e ih keys h m =
      let r = ih keys h m in (ground (arith, r.0), r.1)
  member-keep o observers k present (err x) e ih keys h m = absurd (ground arith)
  member-keep o observers k present (ok ks) e ih keys h m = elim (Bool-cases (str_eq o.key k)) [
    | inl same ↦ (ground arith, ap world.resolved (sym ((eq_iff o.key k).0 same)) ∙ e)
    | inr apart ↦ let r = ih ks refl (ground arith) in (ground (arith, r.0), r.1)
  ]
  member-keep o observers k (broken x) rest e ih keys h m = absurd (ground arith)

  -- What resolves is a listed binding that is present.
  pub member-pairs :
      (observers : List Observer) (keys : List String) (k : String)
      → resolve_observer_pairs world observers ≡ ok keys
      → member k keys ≡ true
      → (has_key k observers ≡ true) × (world.resolved k ≡ present)
  unfolding resolve_observer_pairs
  member-pairs [] keys k h m = absurd (ground arith)
  member-pairs (o ∷ observers) keys k h m =
      member-keep o observers k (world.resolved o.key) (resolve_observer_pairs world observers) refl
        (λ ks. member-pairs observers ks k) keys h m

  module _ (options : Options) where
    abbrev pub aims : String → Group → Bool
    aims k g = not (member g.group options.disabled_groups) && has_key k g.bindings

    abbrev pub targets : String → List Group → Bool
    targets k groups = any (aims k) groups

    -- A pass of `stop` over groups.
    pub record Swept (groups : List Group) (n : Notices) (o : Outcome) : Type 0 where
      pub ended : o.result ≡ ok tt
      pub reached :
          (k : String)
          → targets k groups ≡ true
          → world.handler k stop ≡ returns
          → was_stopped k o.notices.calls ≡ true
      pub kept : (k : String) → was_stopped k n.calls ≡ true → was_stopped k o.notices.calls ≡ true

    pub follow_ended :
        (o : Outcome) (k : Notices → Outcome) → o.result ≡ ok tt → follow o k ≡ k o.notices
    follow_ended o k h = rw h refl

    module _ (quiet : (key : String) (e : ℕ) → world.handler key stop ≢ throws e) where
      abbrev pub AllPresent : List Group → Type 0
      AllPresent groups =
          (k : String) → any (λ g. has_key k g.bindings) groups ≡ true → world.resolved k ≡ present

      notify_pairs-Reached :
          (settle : Bool) (keys : List String) (n : Notices)
          → Reached world keys n (notify_pairs world options settle (stop ∷ []) (ok keys) n)
      unfolding notify_events
      notify_pairs-Reached settle [] n = record {
        ended = refl;
        reached = λ k h g. absurd (ground arith);
        kept = λ k h. h;
      }
      notify_pairs-Reached settle (key ∷ keys) n =
          let o = notify_observers world options.parallel settle (key ∷ keys) stop n in
          let r = notify_observers-Reached world quiet options.parallel settle (key ∷ keys) n in
          subst (Reached world (key ∷ keys) n)
            (sym (follow_ended o (notify_events world options settle [] (key ∷ keys)) r.ended))
            (record { ended = refl; reached = r.reached; kept = r.kept })

      notify_group-Swept :
          (settle : Bool) (g : Group) (n : Notices)
          → Present g.bindings
          → Swept (g ∷ []) n (notify_group world options true settle (stop ∷ []) g n)
      notify_group-Swept settle g n p = elim (Bool-cases (member g.group options.disabled_groups)) [
        | inl disabled ↦
            rw disabled
              (record { ended = refl; reached = λ k h e. absurd (ground arith); kept = λ k h. h })
        | inr enabled ↦ rw enabled (
            rw
              (pairs-Present (reverse g.bindings)
                (λ k h. p k (sym (any-reverse (λ o. str_eq o.key k) g.bindings) ∙ h)))
              (let r = notify_pairs-Reached settle (map (λ o. o.key) (reverse g.bindings)) n in
                record {
                  ended = r.ended;
                  reached = λ k h e.
                      r.reached k
                        (member-map_key k (reverse g.bindings)
                          ∙ any-reverse (λ o. str_eq o.key k) g.bindings
                          ∙ ground arith)
                        e;
                  kept = r.kept;
                }))
      ]

      pub notify_each-Swept :
          (settle : Bool) (groups : List Group) (n : Notices)
          → AllPresent groups
          → Swept groups n (notify_each world options true settle (stop ∷ []) groups n)
      unfolding notify_each
      notify_each-Swept settle [] n p = record {
        ended = refl;
        reached = λ k h g. absurd (ground arith);
        kept = λ k h. h;
      }
      notify_each-Swept settle (g ∷ groups) n p =
          let o = notify_group world options true settle (stop ∷ []) g n in
          let now = notify_group-Swept settle g n (λ k h. p k (ground arith)) in
          let later = notify_each-Swept settle groups o.notices (λ k h. p k (ground arith)) in
          subst (Swept (g ∷ groups) n)
            (sym
              (follow_ended o (notify_each world options true settle (stop ∷ []) groups) now.ended))
            (record {
              ended = later.ended;
              reached = λ k h e. elim (Bool-cases (aims k g)) [
                | inl a ↦ later.kept k (now.reached k (ground arith) e)
                | inr a ↦ later.reached k (ground arith) e
              ];
              kept = λ k h. later.kept k (now.kept k h);
            })
