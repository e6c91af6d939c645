-- ===== src/Lifecycle/Notify.antt =====
-- Notifying observers, group by group, and starting some of them with a rollback.
use agentback.Base.{
  ℕ, String, Bool, true, false, not, List, [], ◌∷◌, ◌++◌, reverse, if◌then◌else◌, Result, ok, err,
}
use agentback.Lifecycle.Groups.{
  Observer, Group, Options, member, select_groups, get_observer_groups_by_order,
}

pub data Event : Type 0 where
  init start stop : Event

-- What an observer does about an event: it has no such method, or the method returns or throws.
pub data Handler : Type 0 where
  absent returns : Handler
  throws : ℕ → Handler

-- What `context.get(key, {optional: true})` gives.
pub data Resolved : Type 0 where
  missing present : Resolved
  broken : ℕ → Resolved

pub data Failure : Type 0 where
  failed : ℕ → Failure
  aggregate : List ℕ → Failure
  with_stop : Failure → Failure → Failure

-- The calls of observers' methods so far, in order, and the keys that `onNotified` was given.
-- Where a caller passes no `onNotified`, it does not read them.
pub record Notices : Type 0 where
  pub calls : List (String × Event)
  pub notified : List String

pub record Outcome : Type 0 where
  pub result : Result Failure (Unit {0})
  pub notices : Notices

-- The observers' code, what their bindings resolve to, which stays the same during a call, and which
-- rejection `Promise.all` sees first.
pub record World : Type 0 where
  pub handler : String → Event → Handler
  pub resolved : String → Resolved
  pub earliest : List ℕ → ℕ

abbrev pub called : String → Event → Handler → Notices → Notices
called key event absent n = n
called key event _ n = record n { calls = n.calls ++ (key, event) ∷ [] }

abbrev pub noted : String → Notices → Notices
noted key n = record n { notified = n.notified ++ key ∷ [] }

abbrev pub done : Notices → Outcome
done n = record { result = ok tt; notices = n }

abbrev pub fail : Failure → Notices → Outcome
fail e n = record { result = err e; notices = n }

abbrev pub follow : Outcome → (Notices → Outcome) → Outcome
follow o k = elim o.result [ ok u ↦ k o.notices | err e ↦ o ]

abbrev pub keep_resolved :
    String → Resolved → Result Failure (List String) → Result Failure (List String)
keep_resolved key missing rest = rest
keep_resolved key present rest = elim rest [ ok keys ↦ ok (key ∷ keys) | err e ↦ err e ]
keep_resolved key (broken e) rest = err (failed e)

module _ (world : World) where
  -- invokeObserver, and what follows it
  abbrev pub invoke : String → Event → Handler → Notices → Outcome
  invoke key event (throws e) n = fail (failed e) (called key event (throws e) n)
  invoke key event absent n = done (noted key n)
  invoke key event returns n = done (noted key (called key event returns n))

  -- notifyObservers, one after the other
  unfoldable pub notify_serially : List String → Event → Notices → Outcome
  notify_serially [] event n = done n
  notify_serially (key ∷ keys) event n =
      follow (invoke key event (world.handler key event) n) (notify_serially keys event)

  abbrev pub start_one : String → Event → Handler → Notices → Notices
  start_one key event (throws e) n = called key event (throws e) n
  start_one key event absent n = noted key n
  start_one key event returns n = noted key (called key event returns n)

  -- The calls of `observers.map(...)` when all of them have settled. The set of the notified keys does
  -- not depend on the order in which they did.
  unfoldable pub notify_all : List String → Event → Notices → Notices
  notify_all [] event n = n
  notify_all (key ∷ keys) event n =
      notify_all keys event (start_one key event (world.handler key event) n)

  abbrev pub failure_of : Handler → List ℕ → List ℕ
  failure_of (throws e) rest = e ∷ rest
  failure_of _ rest = rest

  unfoldable pub failures : List String → Event → List ℕ
  failures [] event = []
  failures (key ∷ keys) event = failure_of (world.handler key event) (failures keys event)

  abbrev pub settled : Bool → List ℕ → Notices → Outcome
  settled settle [] n = done n
  settled settle (e ∷ []) n = fail (failed e) n
  settled true (e ∷ d ∷ es) n = fail (aggregate (e ∷ d ∷ es)) n
  settled false (e ∷ d ∷ es) n = fail (failed (world.earliest (e ∷ d ∷ es))) n

  -- notifyObservers. Where the caller does not wait for every one to settle, the state is the one when
  -- all have.
  unfoldable pub notify_observers : Bool → Bool → List String → Event → Notices → Outcome
  unfolding notify_serially notify_all failures
  notify_observers parallel settle keys event n =
      if not parallel
      then notify_serially keys event n
      else settled settle (failures keys event) (notify_all keys event n)

  -- resolveObserverPairs; a pair is known by its key.
  unfoldable pub resolve_observer_pairs : List Observer → Result Failure (List String)
  resolve_observer_pairs [] = ok []
  resolve_observer_pairs (o ∷ observers) =
      keep_resolved o.key (world.resolved o.key) (resolve_observer_pairs observers)

  module _ (options : Options) where
    unfoldable pub notify_events : Bool → List Event → List String → Notices → Outcome
    unfolding notify_observers
    notify_events settle [] keys n = done n
    notify_events settle (event ∷ events) keys n =
        follow (notify_observers options.parallel settle keys event n)
          (notify_events settle events keys)

    abbrev pub turned : Bool → List Observer → List Observer
    turned backwards observers = if backwards then reverse observers else observers

    abbrev pub notify_pairs : Bool → List Event → Result Failure (List String) → Notices → Outcome
    notify_pairs settle events (err e) n = fail e n
    notify_pairs settle events (ok []) n = done n
    notify_pairs settle events (ok (key ∷ keys)) n = notify_events settle events (key ∷ keys) n

    abbrev pub notify_group : Bool → Bool → List Event → Group → Notices → Outcome
    notify_group backwards settle events g n =
        if member g.group options.disabled_groups
        then done n
        else notify_pairs settle events (resolve_observer_pairs (turned backwards g.bindings)) n

    unfoldable pub notify_each : Bool → Bool → List Event → List Group → Notices → Outcome
    unfolding notify_events resolve_observer_pairs
    notify_each backwards settle events [] n = done n
    notify_each backwards settle events (g ∷ groups) n =
        follow (notify_group backwards settle events g n)
          (notify_each backwards settle events groups)

    -- notifyGroups
    unfoldable pub notify_groups : Bool → Bool → List Event → List Group → Notices → Outcome
    unfolding notify_each
    notify_groups backwards settle events groups n =
        notify_each backwards settle events (if backwards then reverse groups else groups) n

    module _ (less : String → String → Bool) (view : List Observer) where
      -- init, start and stop
      unfoldable pub notify : Event → Notices → Outcome
      unfolding notify_groups get_observer_groups_by_order
      notify stop n =
          notify_groups true false (stop ∷ []) (get_observer_groups_by_order less options view) n
      notify event n =
          notify_groups false false (event ∷ []) (get_observer_groups_by_order less options view) n

      -- stopObservers
      unfoldable pub stop_observers : List String → Notices → Outcome
      unfolding notify_groups select_groups
      stop_observers keys n =
          notify_groups true false (stop ∷ []) (select_groups less options keys view) n

      -- The two passes in the `try` of startObservers.
      unfoldable pub start_pass : List String → List (String × Event) → Outcome
      unfolding notify_groups select_groups
      start_pass keys calls =
          let groups = select_groups less options keys view in
          follow
            (notify_groups false true (init ∷ []) groups (record { calls = calls; notified = [] }))
            (notify_groups false true (start ∷ []) groups)

      abbrev pub unwound : Failure → Outcome → Outcome
      unwound e o = elim o.result [
        | ok u ↦ fail e o.notices
        | err e' ↦ fail (with_stop e e') o.notices
      ]

      abbrev pub unwind : Outcome → Failure → List String → Outcome
      unwind o e [] = o
      unwind o e (key ∷ keys) = unwound e (stop_observers (key ∷ keys) o.notices)

      abbrev pub after_pass : Outcome → Outcome
      after_pass o = elim o.result [ ok u ↦ o | err e ↦ unwind o e o.notices.notified ]

      -- startObservers
      unfoldable pub start_observers : List String → List (String × Event) → Outcome
      unfolding start_pass stop_observers
      start_observers keys calls = after_pass (start_pass keys calls)

      -- initObservers
      unfoldable pub init_observers : List String → Notices → Outcome
      unfolding notify_groups select_groups
      init_observers keys n =
          notify_groups false false (init ∷ []) (select_groups less options keys view) n
