-- ===== src/Lifecycle/Reversal.antt =====
-- The orders in which observers are started and stopped.
use mathlib.Core.List.{reverse-append, reverse-cons, map-append, append_assoc, append-nil}
use agentback.Base.{
  ℕ, ◌≡◌, ◌≢◌, refl, ap, sym, ◌∙◌, subst, String, Bool, true, false, List, [], ◌∷◌, ◌++◌, map,
  reverse, if◌then◌else◌, ok, Bool-cases, inl, inr,
}
use agentback.Lifecycle.Groups.{Observer, Group, Options, member, get_observer_groups_by_order}
use agentback.Lifecycle.Notify.{
  Event, start, stop, returns, Resolved, missing, present, broken, Notices, Outcome, World,
  keep_resolved, resolve_observer_pairs, start_one, notify_serially, notify_all, failures,
  notify_observers, notify_events, turned, notify_pairs, notify_group, notify_each, notify_groups,
  notify,
}
use agentback.Lifecycle.Sweep.{follow_ended}

abbrev calls_of : Event → List String → List (String × Event)
calls_of event keys = map (λ k. (k, event)) keys

module _ (world : World) (options : Options) where
  abbrev key_if : Resolved → String → List String → List String
  key_if present k keys = k ∷ keys
  key_if _ k keys = keys

  -- The observers of a group that are there.
  abbrev there : List Observer → List String
  there [] = []
  there (o ∷ observers) = key_if (world.resolved o.key) o.key (there observers)

  abbrev taken : Bool → Group → List String
  taken backwards g =
      if member g.group options.disabled_groups
      then []
      else there (turned world options backwards g.bindings)

  -- The observers in the order in which they start: group by group, without the disabled ones.
  abbrev pub plan : Bool → List Group → List String
  plan backwards [] = []
  plan backwards (g ∷ groups) = taken backwards g ++ plan backwards groups

  key_if-append :
      (r : Resolved) (k : String) (xs ys : List String)
      → key_if r k (xs ++ ys) ≡ key_if r k xs ++ ys
  key_if-append missing k xs ys = refl
  key_if-append present k xs ys = refl
  key_if-append (broken e) k xs ys = refl

  key_if-reverse :
      (r : Resolved) (k : String) (xs : List String)
      → reverse xs ++ key_if r k [] ≡ reverse (key_if r k xs)
  key_if-reverse missing k xs = append-nil (reverse xs)
  key_if-reverse present k xs = sym (reverse-cons k xs)
  key_if-reverse (broken e) k xs = append-nil (reverse xs)

  there-append : (xs ys : List Observer) → there (xs ++ ys) ≡ there xs ++ there ys
  there-append [] ys = refl
  there-append (o ∷ xs) ys =
      ap (key_if (world.resolved o.key) o.key) (there-append xs ys)
      ∙ key_if-append (world.resolved o.key) o.key (there xs) (there ys)

  there-reverse : (os : List Observer) → there (reverse os) ≡ reverse (there os)
  there-reverse [] = refl
  there-reverse (o ∷ os) =
      ap there (reverse-cons o os)
      ∙ there-append (reverse os) (o ∷ [])
      ∙ ap (λ ks. ks ++ there (o ∷ [])) (there-reverse os)
      ∙ key_if-reverse (world.resolved o.key) o.key (there os)

  plan-append : (b : Bool) (gs hs : List Group) → plan b (gs ++ hs) ≡ plan b gs ++ plan b hs
  plan-append b [] hs = refl
  plan-append b (g ∷ gs) hs =
      ap (λ ks. taken b g ++ ks) (plan-append b gs hs)
      ∙ sym (append_assoc (taken b g) (plan b gs) (plan b hs))

  taken-reverse : (g : Group) → taken true g ≡ reverse (taken false g)
  taken-reverse g = elim (Bool-cases (member g.group options.disabled_groups)) [
    | inl disabled ↦ rw disabled refl
    | inr enabled ↦ rw enabled (there-reverse g.bindings)
  ]

  plan-reverse : (gs : List Group) → plan true (reverse gs) ≡ reverse (plan false gs)
  plan-reverse [] = refl
  plan-reverse (g ∷ gs) =
      ap (plan true) (reverse-cons g gs)
      ∙ plan-append true (reverse gs) (g ∷ [])
      ∙ ap (λ ks. ks ++ plan true (g ∷ [])) (plan-reverse gs)
      ∙ ap (λ ks. reverse (plan false gs) ++ ks) (append-nil (taken true g) ∙ taken-reverse g)
      ∙ sym (reverse-append (taken false g) (plan false gs))

  -- A notification that went well, of these observers in this order.
  record Went (event : Event) (keys : List String) (n : Notices) (o : Outcome) : Type 0 where
    ended : o.result ≡ ok tt
    calls : o.notices.calls ≡ n.calls ++ calls_of event keys

  module _ (willing : (key : String) (event : Event) → world.handler key event ≡ returns)
      (sound : (key : String) (e : ℕ) → world.resolved key ≢ broken e) where
    serially :
        (event : Event) (keys : List String) (n : Notices)
        → Went event keys n (notify_serially world keys event n)
    unfolding notify_serially
    serially event [] n = record { ended = refl; calls = sym (append-nil n.calls) }
    serially event (key ∷ keys) n = rw (willing key event) (
        let n' = record n {
          calls = n.calls ++ (key, event) ∷ [];
          notified = n.notified ++ key ∷ [];
        } in
        let w = serially event keys n' in
        record {
          ended = w.ended;
          calls = w.calls ∙ append_assoc n.calls ((key, event) ∷ []) (calls_of event keys);
        })

    all_calls :
        (event : Event) (keys : List String) (n : Notices)
        → (notify_all world keys event n).calls ≡ n.calls ++ calls_of event keys
    unfolding notify_all
    all_calls event [] n = sym (append-nil n.calls)
    all_calls event (key ∷ keys) n =
        all_calls event keys (start_one world key event (world.handler key event) n)
        ∙ ap (λ h. (start_one world key event h n).calls ++ calls_of event keys) (willing key event)
        ∙ append_assoc n.calls ((key, event) ∷ []) (calls_of event keys)

    no_failures : (event : Event) (keys : List String) → failures world keys event ≡ []
    unfolding failures
    no_failures event [] = refl
    no_failures event (key ∷ keys) = rw (willing key event) (no_failures event keys)

    observers :
        (parallel settle : Bool) (event : Event) (keys : List String) (n : Notices)
        → Went event keys n (notify_observers world parallel settle keys event n)
    unfolding notify_observers
    observers true settle event keys n =
        rw (no_failures event keys) (record { ended = refl; calls = all_calls event keys n })
    observers false settle event keys n = serially event keys n

    pairs : (os : List Observer) → resolve_observer_pairs world os ≡ ok (there os)
    unfolding resolve_observer_pairs
    pairs [] = refl
    pairs (o ∷ os) = rw (pairs os) (kept (world.resolved o.key) (sound o.key))
      where
        kept :
            (r : Resolved)
            → ((e : ℕ) → r ≢ broken e)
            → keep_resolved o.key r (ok (there os)) ≡ ok (key_if r o.key (there os))
        kept missing s = refl
        kept present s = refl
        kept (broken e) s = absurd (s e refl)

    events :
        (settle : Bool) (event : Event) (keys : List String) (n : Notices)
        → Went event keys n (notify_pairs world options settle (event ∷ []) (ok keys) n)
    unfolding notify_events
    events settle event [] n = record { ended = refl; calls = sym (append-nil n.calls) }
    events settle event (key ∷ keys) n =
        let o = notify_observers world options.parallel settle (key ∷ keys) event n in
        let w = observers options.parallel settle event (key ∷ keys) n in
        subst (Went event (key ∷ keys) n)
          (sym (
            follow_ended world options o (notify_events world options settle [] (key ∷ keys))
              w.ended))
          (record { ended = refl; calls = w.calls })

    group :
        (backwards settle : Bool) (event : Event) (g : Group) (n : Notices)
        → Went event
            (taken backwards g)
            n
            (notify_group world options backwards settle (event ∷ []) g n)
    group backwards settle event g n = elim (Bool-cases (member g.group options.disabled_groups)) [
      | inl disabled ↦ rw disabled (record { ended = refl; calls = sym (append-nil n.calls) })
      | inr enabled ↦ rw enabled (
          rw (pairs (turned world options backwards g.bindings))
            (events settle event (there (turned world options backwards g.bindings)) n))
    ]

    each :
        (backwards settle : Bool) (event : Event) (gs : List Group) (n : Notices)
        → Went event
            (plan backwards gs)
            n
            (notify_each world options backwards settle (event ∷ []) gs n)
    unfolding notify_each
    each backwards settle event [] n = record { ended = refl; calls = sym (append-nil n.calls) }
    each backwards settle event (g ∷ gs) n =
        let o = notify_group world options backwards settle (event ∷ []) g n in
        let now = group backwards settle event g n in
        let later = each backwards settle event gs o.notices in
        subst (Went event (plan backwards (g ∷ gs)) n)
          (sym (
            follow_ended world options o
              (notify_each world options backwards settle (event ∷ []) gs) now.ended))
          (record {
            ended = later.ended;
            calls =
                later.calls
                ∙ ap (λ cs. cs ++ calls_of event (plan backwards gs)) now.calls
                ∙ append_assoc n.calls (calls_of event (taken backwards g))
                    (calls_of event (plan backwards gs))
                ∙ ap (λ cs. n.calls ++ cs)
                    (sym (map-append (λ k. (k, event)) (taken backwards g) (plan backwards gs)));
          })

    module _ (less : String → String → Bool) (view : List Observer) (n : Notices) where
      abbrev order : List String
      order = plan false (get_observer_groups_by_order less options view)

      -- Where every observer has a method for every event, none of them throws, and every binding
      -- resolves or is missing: one after the other or in parallel, `start` and `stop` succeed and call
      -- the same observers, `stop` in the reverse order.
      pub notify-reverse :
          ((notify world options less view start n).result ≡ ok tt)
          × ((notify world options less view stop n).result ≡ ok tt)
          × ((notify world options less view start n).notices.calls
              ≡ n.calls ++ calls_of start order)
          × ((notify world options less view stop n).notices.calls
              ≡ n.calls ++ calls_of stop (reverse order))
      unfolding notify notify_groups
      notify-reverse =
          let gs = get_observer_groups_by_order less options view in
          let forth = each false false start gs n in
          let back = each true false stop (reverse gs) n in
          (
            forth.ended,
            back.ended,
            forth.calls,
            back.calls ∙ ap (λ ks. n.calls ++ calls_of stop ks) (plan-reverse gs),
          )
