-- ===== src/Tests/Lifecycle.antt =====
-- Runs of the life cycle registry.
use agentback.Base.{
  ℕ, ◌≡◌, ◌≢◌, refl, String, Bool, true, false, List, [], ◌∷◌, str_eq, if◌then◌else◌, arith, ok,
  err,
}
use agentback.Base.Map.{lookup}
use agentback.Lifecycle.Groups.{Observer, Options, get_observer_groups_by_order}
use agentback.Lifecycle.Notify.{
  Event, init, start, stop, Handler, returns, throws, Resolved, present, failed, Notices, World,
  notify, start_pass, start_observers,
}
use agentback.Lifecycle.Reached.{was_stopped}
use agentback.Lifecycle.Rollback.{start_observers-rollback}
use agentback.Lifecycle.Reversal.{notify-reverse}

abbrev observers : List Observer
observers =
    record { key = "db"; tag_map = [] }
    ∷ record { key = "web"; tag_map = ("lifeCycleObserverGroup", "server") ∷ [] }
    ∷ []

abbrev options : Options
options = record { parallel = false; ordered_groups = "server" ∷ []; disabled_groups = [] }

abbrev less : String → String → Bool
less a b = false

abbrev willing : World
willing = record { handler = λ key event. returns; resolved = λ key. present; earliest = λ es. 0 }

abbrev start_fails : String → Event → Handler
start_fails key init = returns
start_fails key start = if str_eq key "web" then throws 1 else returns
start_fails key stop = returns

-- The server fails to start.
abbrev broken_server : World
broken_server = record { handler = start_fails; resolved = λ key. present; earliest = λ es. 0 }

abbrev at_first : Notices
at_first = record { calls = []; notified = [] }

stop_returns : (key : String) (e : ℕ) → start_fails key stop ≢ throws e
stop_returns key e = ground arith

start_observers-rollback_example :
    ((start_observers broken_server options less observers ("db" ∷ "web" ∷ []) []).result
      ≡ err (failed 1))
    × (was_stopped "db"
          (start_observers broken_server options less observers
            ("db" ∷ "web" ∷ [])
            []).notices.calls
        ≡ true)
unfolding start_pass get_observer_groups_by_order lookup
start_observers-rollback_example =
    start_observers-rollback less broken_server options observers stop_returns ("db" ∷ "web" ∷ [])
      (failed 1) "db" refl refl refl

never_broken : (key : String) (e : ℕ) → present ≢ Resolved.broken e
never_broken key e = ground arith

notify-reverse_example :
    ((notify willing options less observers start at_first).result ≡ ok tt)
    × ((notify willing options less observers stop at_first).result ≡ ok tt)
    × ((notify willing options less observers start at_first).notices.calls
        ≡ ("db", start) ∷ ("web", start) ∷ [])
    × ((notify willing options less observers stop at_first).notices.calls
        ≡ ("web", stop) ∷ ("db", stop) ∷ [])
unfolding get_observer_groups_by_order lookup
notify-reverse_example =
    notify-reverse willing options (λ key event. refl) never_broken less observers at_first
