-- ===== src/Lifecycle/Rollback.antt =====
-- A start that fails stops what it has started.
use agentback.Base.{
  ℕ, ◌≡◌, ◌≢◌, refl, ap, sym, ◌∙◌, String, Bool, true, false, ◌&&◌, ◌⊎◌, List, [], ◌∷◌, any, map,
  select, reverse, str_eq, eq_iff, arith, err, Bool-cases, inl, inr,
}
use agentback.Lifecycle.Groups.{
  Observer, Group, Options, member, restrict, has_bindings, select_from, select_groups,
  get_observer_groups_by_order,
}
use agentback.Lifecycle.Notify.{
  init, start, stop, returns, throws, present, Failure, Notices, Outcome, World, notify_groups,
  stop_observers, start_pass, start_observers, after_pass, unwind,
}
use agentback.Lifecycle.Reached.{was_stopped}
use agentback.Lifecycle.Sweep.{has_key, aims, targets, Swept, any-reverse, notify_each-Swept}
use agentback.Lifecycle.Tracked.{Aimed, follow-From, notify_each-From}

has_key-select :
    (k : String) (keys : List String) (observers : List Observer)
    → has_key k (select (λ o. member o.key keys) observers) ≡ (member k keys && has_key k observers)
has_key-select k keys [] = ground arith
has_key-select k keys (o ∷ observers) = elim (Bool-cases (str_eq o.key k)) [
  | inl same ↦
      ground
        (arith, has_key-select k keys observers, ap (λ i. member i keys) ((eq_iff o.key k).0 same))
  | inr apart ↦ ground (arith, has_key-select k keys observers)
]

-- A group without bindings has no key.
has_bindings-of :
    (k : String) (g : Group) (observers : List Observer)
    → g.bindings ≡ observers
    → has_bindings g ≡ false
    → has_key k g.bindings ≡ false
has_bindings-of k g [] e h = rw e refl
has_bindings-of k g (o ∷ observers) e h = absurd (ground arith)

module _ (less : String → String → Bool) (world : World) (options : Options) where
  module _ (k : String) (keys : List String) where
    any-select_from :
        (p : Group → Bool)
        → ((g : Group) → p g ≡ true → has_key k g.bindings ≡ true)
        → (groups : List Group)
        → any p (select_from keys groups) ≡ any p (map (restrict keys) groups)
    any-select_from p q [] = refl
    any-select_from p q (g ∷ groups) = ground (
      arith,
      any-select_from p q groups,
      q (restrict keys g),
      has_bindings-of k (restrict keys g) _ refl,
    )

    targets-restrict :
        (groups : List Group)
        → targets world options k (map (restrict keys) groups)
          ≡ (member k keys && targets world options k groups)
    targets-restrict [] = ground arith
    targets-restrict (g ∷ groups) =
        ground (arith, targets-restrict groups, has_key-select k keys g.bindings)

    listed-restrict :
        (groups : List Group)
        → any (λ g. has_key k g.bindings) (map (restrict keys) groups) ≡ true
        → member k keys ≡ true
    listed-restrict [] h = absurd (ground arith)
    listed-restrict (g ∷ groups) h =
        ground (arith, listed-restrict groups, has_key-select k keys g.bindings)

  module _ (view : List Observer) where
    abbrev groups : List Group
    groups = get_observer_groups_by_order less options view

    abbrev selected : List String → List Group
    selected keys = select_groups less options keys view

    targets-select_groups :
        (k : String) (keys : List String)
        → targets world options k (selected keys)
          ≡ (member k keys && targets world options k groups)
    unfolding select_groups
    targets-select_groups k [] = refl
    targets-select_groups k (i ∷ keys) =
        any-select_from k (i ∷ keys) (aims world options k) (λ g h. ground arith) groups
        ∙ targets-restrict k (i ∷ keys) groups

    listed-select_groups :
        (k : String) (keys : List String)
        → any (λ g. has_key k g.bindings) (selected keys) ≡ true
        → member k keys ≡ true
    unfolding select_groups
    listed-select_groups k [] h = h
    listed-select_groups k (i ∷ keys) h =
        listed-restrict k (i ∷ keys) groups
          (sym (any-select_from k (i ∷ keys) (λ g. has_key k g.bindings) (λ g e. e) groups) ∙ h)

    -- Whoever is notified in the two passes of a start was bound in a group that is not disabled.
    start_pass-Aimed :
        (keys : List String) (k : String)
        → member k (start_pass world options less view keys []).notices.notified ≡ true
        → Aimed world options (selected keys) k
    unfolding start_pass notify_groups
    start_pass-Aimed keys k m = fresh (
        follow-From world (Aimed world options (selected keys))
          (Aimed world options (selected keys)) (Aimed world options (selected keys))
          (record { calls = []; notified = [] })
          (notify_groups world options false true (init ∷ []) (selected keys)
            (record { calls = []; notified = [] }))
          (notify_groups world options false true (start ∷ []) (selected keys)) (λ j h. h)
          (λ j h. h) (notify_each-From world options true init (selected keys) _)
          (notify_each-From world options true start (selected keys) _) k m)
      where
        fresh :
            (member k [] ≡ true) ⊎ Aimed world options (selected keys) k
            → Aimed world options (selected keys) k
        fresh (inl h) = absurd (ground arith)
        fresh (inr h) = h

    module _ (quiet : (key : String) (e : ℕ) → world.handler key stop ≢ throws e) where
      -- Stopping observers that are there and that no group hides.
      stop_observers-Swept :
          (started : List String) (n : Notices)
          → ((j : String) → member j started ≡ true → world.resolved j ≡ present)
          → Swept world options
              (reverse (selected started))
              n
              (stop_observers world options less view started n)
      unfolding stop_observers notify_groups
      stop_observers-Swept started n here =
          notify_each-Swept world options quiet false (reverse (selected started)) n (λ j h.
            here j (
              listed-select_groups j started
                (sym (any-reverse (λ g. has_key j g.bindings) (selected started)) ∙ h)))

      unwind-stops :
          (o : Outcome) (e : Failure) (started : List String) (k : String)
          → o.result ≡ err e
          → ((j : String) → member j started ≡ true → world.resolved j ≡ present)
          → member k started ≡ true
          → targets world options k groups ≡ true
          → world.handler k stop ≡ returns
          → let after = unwind world options less view o e started in
            (after.result ≡ err e) × (was_stopped k after.notices.calls ≡ true)
      unwind-stops o e [] k failed here m t h = absurd (ground arith)
      unwind-stops o e (i ∷ started) k failed here m t h =
          let s = stop_observers-Swept (i ∷ started) o.notices here in
          let aim =
            any-reverse (aims world options k) (selected (i ∷ started))
            ∙ targets-select_groups k (i ∷ started) in
          rw s.ended (refl, s.reached k (aim ∙ ground (arith, m, t)) h)

      after_pass_err :
          (o : Outcome) (e : Failure)
          → o.result ≡ err e
          → after_pass world options less view o
            ≡ unwind world options less view o e o.notices.notified
      after_pass_err o e h = rw h refl

      -- Where no observer's `stop` throws: when starting some observers fails, the error is that of the
      -- start, and each observer that had been notified by then has had its `stop` called.
      pub start_observers-rollback :
          (keys : List String) (e : Failure) (k : String)
          → (start_pass world options less view keys []).result ≡ err e
          → member k (start_pass world options less view keys []).notices.notified ≡ true
          → world.handler k stop ≡ returns
          → let after = start_observers world options less view keys [] in
            (after.result ≡ err e) × (was_stopped k after.notices.calls ≡ true)
      unfolding start_observers
      start_observers-rollback keys e k failed m h =
          let o = start_pass world options less view keys [] in
          let aimed = start_pass-Aimed keys k m in
          rw (after_pass_err o e failed) (
            unwind-stops o e o.notices.notified k failed (λ j q. (start_pass-Aimed keys j q).1) m
              (ground (arith, aimed.0, targets-select_groups k keys)) h)
