-- ===== src/Lifecycle/Tracked.antt =====
-- Which observers a pass says that it has notified.
use agentback.Base.{
  ℕ, ◌≡◌, refl, ap, sym, ◌∙◌, String, Bool, true, false, ◌||◌, ◌⊎◌, List, [], ◌∷◌, ◌++◌, str_eq,
  arith, Result, ok, err, Bool-cases, Result-cases, inl, inr,
}
use agentback.Lifecycle.Groups.{Group, Options, member}
use agentback.Lifecycle.Notify.{
  Event, Handler, absent, returns, throws, present, Failure, Notices, Outcome, World, follow,
  resolve_observer_pairs, notify_observers, notify_serially, notify_all, settled, failures, invoke,
  start_one, notify_events, notify_pairs, notify_group, notify_each,
}
use agentback.Lifecycle.Reached.{any-append}
use agentback.Lifecycle.Sweep.{has_key, targets, member-pairs}

member-snoc :
    (k key : String) (keys : List String)
    → member k (keys ++ key ∷ []) ≡ (member k keys || str_eq key k)
member-snoc k key keys = ground (arith, any-append (λ i. str_eq i k) keys (key ∷ []))

module _ (world : World) where
  -- Who was notified is one of these, or was before.
  abbrev pub From : (String → Type 0) → Notices → Notices → Type 0
  From Q n n' = (k : String) → member k n'.notified ≡ true → (member k n.notified ≡ true) ⊎ Q k

  abbrev In : List String → String → Type 0
  In keys k = member k keys ≡ true

  invoke-From :
      (key : String) (event : Event) (h : Handler) (n : Notices)
      → From (In (key ∷ [])) n (invoke world key event h n).notices
  invoke-From key event absent n k m = ground (arith, member-snoc k key n.notified)
  invoke-From key event returns n k m = ground (arith, member-snoc k key n.notified)
  invoke-From key event (throws e) n k m = inl m

  start_one-From :
      (key : String) (event : Event) (h : Handler) (n : Notices)
      → From (In (key ∷ [])) n (start_one world key event h n)
  start_one-From key event absent n k m = ground (arith, member-snoc k key n.notified)
  start_one-From key event returns n k m = ground (arith, member-snoc k key n.notified)
  start_one-From key event (throws e) n k m = inl m

  then-From :
      (Q R S : String → Type 0) (n n' n'' : Notices)
      → ((k : String) → Q k → S k)
      → ((k : String) → R k → S k)
      → From Q n n'
      → From R n' n''
      → From S n n''
  then-From Q R S n n' n'' q r f g k m = join (g k m)
    where
      first : (member k n.notified ≡ true) ⊎ Q k → (member k n.notified ≡ true) ⊎ S k
      first (inl h) = inl h
      first (inr h) = inr (q k h)

      join : (member k n'.notified ≡ true) ⊎ R k → (member k n.notified ≡ true) ⊎ S k
      join (inl h) = first (f k h)
      join (inr h) = inr (r k h)

  weaken-From :
      (Q S : String → Type 0) (n n' : Notices)
      → ((k : String) → Q k → S k)
      → From Q n n'
      → From S n n'
  weaken-From Q S n n' q f k m = pass (f k m)
    where
      pass : (member k n.notified ≡ true) ⊎ Q k → (member k n.notified ≡ true) ⊎ S k
      pass (inl h) = inl h
      pass (inr h) = inr (q k h)

  pub follow-From :
      (Q R S : String → Type 0) (n : Notices) (o : Outcome) (next : Notices → Outcome)
      → ((k : String) → Q k → S k)
      → ((k : String) → R k → S k)
      → From Q n o.notices
      → From R o.notices (next o.notices).notices
      → From S n (follow o next).notices
  follow-From Q R S n o next q r f g = elim (Result-cases o.result) [
    | inl (u, p) ↦ rw p (then-From Q R S n o.notices (next o.notices).notices q r f g)
    | inr (e, p) ↦ rw p (then-From Q R S n o.notices o.notices q r f (λ k m. inl m))
  ]

  notify_serially-From :
      (keys : List String) (event : Event) (n : Notices)
      → From (In keys) n (notify_serially world keys event n).notices
  unfolding notify_serially
  notify_serially-From [] event n = λ k m. inl m
  notify_serially-From (key ∷ keys) event n =
      follow-From (In (key ∷ [])) (In keys) (In (key ∷ keys)) n
        (invoke world key event (world.handler key event) n) (notify_serially world keys event)
        (λ k h. ground arith) (λ k h. ground arith)
        (invoke-From key event (world.handler key event) n) (notify_serially-From keys event _)

  notify_all-From :
      (keys : List String) (event : Event) (n : Notices)
      → From (In keys) n (notify_all world keys event n)
  unfolding notify_all
  notify_all-From [] event n = λ k m. inl m
  notify_all-From (key ∷ keys) event n =
      let n' = start_one world key event (world.handler key event) n in
      then-From (In (key ∷ [])) (In keys) (In (key ∷ keys)) n n' (notify_all world keys event n')
        (λ k h. ground arith) (λ k h. ground arith)
        (start_one-From key event (world.handler key event) n) (notify_all-From keys event n')

  settled_notices :
      (settle : Bool) (es : List ℕ) (n : Notices) → (settled world settle es n).notices ≡ n
  settled_notices settle [] n = refl
  settled_notices settle (e ∷ []) n = refl
  settled_notices true (e ∷ d ∷ es) n = refl
  settled_notices false (e ∷ d ∷ es) n = refl

  notify_observers-From :
      (parallel settle : Bool) (keys : List String) (event : Event) (n : Notices)
      → From (In keys) n (notify_observers world parallel settle keys event n).notices
  unfolding notify_observers
  notify_observers-From true settle keys event n k m = notify_all-From keys event n k (
      ap (λ (x : Notices). member k x.notified)
        (sym (settled_notices settle (failures world keys event) (notify_all world keys event n)))
      ∙ m)
  notify_observers-From false settle keys event n k m = notify_serially-From keys event n k m

  module _ (options : Options) where
    -- A binding of these groups that was there.
    abbrev pub Aimed : List Group → String → Type 0
    Aimed groups k = (targets world options k groups ≡ true) × (world.resolved k ≡ present)

    notify_events-From :
        (settle : Bool) (event : Event) (keys : List String) (n : Notices)
        → From (In keys) n (notify_events world options settle (event ∷ []) keys n).notices
    unfolding notify_events
    notify_events-From settle event keys n =
        follow-From (In keys) (λ k. ⊥) (In keys) n
          (notify_observers world options.parallel settle keys event n)
          (notify_events world options settle [] keys) (λ k h. h) (λ k h. absurd h)
          (notify_observers-From options.parallel settle keys event n) (λ k m. inl m)

    abbrev Resolves : Result Failure (List String) → String → Type 0
    Resolves r k = (keys : List String) × (r ≡ ok keys) × (member k keys ≡ true)

    notify_pairs-From :
        (settle : Bool) (event : Event) (r : Result Failure (List String)) (n : Notices)
        → From (Resolves r) n (notify_pairs world options settle (event ∷ []) r n).notices
    notify_pairs-From settle event (err e) n = λ k m. inl m
    notify_pairs-From settle event (ok []) n = λ k m. inl m
    notify_pairs-From settle event (ok (key ∷ keys)) n =
        weaken-From (In (key ∷ keys)) (Resolves (ok (key ∷ keys))) n
          (notify_events world options settle (event ∷ []) (key ∷ keys) n).notices
          (λ k h. (key ∷ keys, refl, h)) (notify_events-From settle event (key ∷ keys) n)

    -- What is left of `Aimed` in a group that is not disabled.
    abbrev Listed : Group → String → Type 0
    Listed g k = ((has_key k g.bindings || false) ≡ true) × (world.resolved k ≡ present)

    notify_group-From :
        (settle : Bool) (event : Event) (g : Group) (n : Notices)
        → From (Aimed (g ∷ [])) n (notify_group world options false settle (event ∷ []) g n).notices
    notify_group-From settle event g n =
        elim (Bool-cases (member g.group options.disabled_groups)) [
          | inl disabled ↦ rw disabled (λ k m. inl m)
          | inr enabled ↦ rw enabled (
              let pairs = resolve_observer_pairs world g.bindings in
              weaken-From (Resolves pairs) (Listed g) n
                (notify_pairs world options settle (event ∷ []) pairs n).notices
                (λ k h.
                  let r = member-pairs world g.bindings h.0 k h.1 h.2 in (ground (arith, r.0), r.1))
                (notify_pairs-From settle event pairs n))
        ]

    pub notify_each-From :
        (settle : Bool) (event : Event) (groups : List Group) (n : Notices)
        → From
            (Aimed groups)
            n
            (notify_each world options false settle (event ∷ []) groups n).notices
    unfolding notify_each
    notify_each-From settle event [] n = λ k m. inl m
    notify_each-From settle event (g ∷ groups) n =
        follow-From (Aimed (g ∷ [])) (Aimed groups) (Aimed (g ∷ groups)) n
          (notify_group world options false settle (event ∷ []) g n)
          (notify_each world options false settle (event ∷ []) groups)
          (λ k h. (ground (arith, h.0), h.1)) (λ k h. (ground (arith, h.0), h.1))
          (notify_group-From settle event g n) (notify_each-From settle event groups _)
