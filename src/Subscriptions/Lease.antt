-- ===== src/Subscriptions/Lease.antt =====
-- What the lazy store answers, and the time that is granted.
use agentback.Base.{
  ℕ, ◌+◌, ◌≤◌, ◌≡◌, String, true, Option, none, some, str_eq, if◌then◌else◌, arith, ltb, List, [],
  ◌∷◌,
}
use agentback.Base.Map.{lookup}
use agentback.Subscriptions.{
  EventsConfig, Requested, omitted, no_expiry, lasting, grant_ttl, EventSubscription, Store, put,
  get, delete,
}

-- A subscription is in force without an end, or before its end.
abbrev pub until : Option ℕ → ℕ → EventSubscription → Option EventSubscription
until none now sub = some sub
until (some end') now sub = if ltb now end' then some sub else none

abbrev pub in_force : ℕ → Option EventSubscription → Option EventSubscription
in_force now none = none
in_force now (some sub) = until sub.expires_at now sub

-- What callers ask of the store, and when.
pub data Op : Type 0 where
  puts : ℕ → EventSubscription → Op
  gets deletes : ℕ → String → Op

abbrev pub time_of : Op → ℕ
time_of (puts now sub) = now
time_of (gets now id) = now
time_of (deletes now id) = now

unfoldable pub perform : Op → Store → Store
unfolding put get delete
perform (puts now sub) s = put sub s
perform (gets now id) s = (get now id s).1
perform (deletes now id) s = (delete now id s).1

unfoldable pub perform_all : List Op → Store → Store
unfolding perform
perform_all [] s = s
perform_all (op ∷ ops) s = perform_all ops (perform op s)

-- What was put last under each id, and not deleted since; nothing is dropped because time passes.
abbrev pub Latest : Type 0
Latest = String → Option EventSubscription

abbrev pub note : Op → Latest → Latest
note (puts now sub) a = λ id. if str_eq sub.id id then some sub else a id
note (gets now id) a = a
note (deletes now id) a = λ other. if str_eq id other then none else a other

abbrev pub latest : List Op → Latest → Latest
latest [] a = a
latest (op ∷ ops) a = latest ops (note op a)

-- The clock does not go back: from a time, through the operations, to another.
abbrev pub Timed : ℕ → List Op → ℕ → Type 0
Timed start [] now = start ≤ now
Timed start (op ∷ ops) now = (start ≤ time_of op) × Timed (time_of op) ops now

-- From a time on, the store has in force what was put last.
abbrev Agrees : ℕ → Store → Latest → Type 0
Agrees start s a =
    (later : ℕ)
    → start ≤ later
    → (id : String) → in_force later (lookup id s.subs) ≡ in_force later (a id)

abbrev pub no_subs : Store
no_subs = record { subs = []; verified = [] }

-- A subscription lasts at least the least time and at most the longest one that the configuration
-- names, whatever the request says, and it is unlimited only where the configuration allows that.
pub grant_ttl-bounds :
    (requested : Requested) (cfg : EventsConfig) (now : ℕ)
    → cfg.min_ttl_ms ≤ cfg.max_ttl_ms
    → (grant_ttl requested cfg now ≡ none → cfg.allow_no_expiry ≡ true)
      × ((until : ℕ)
          → grant_ttl requested cfg now ≡ some until
          → (now + cfg.min_ttl_ms ≤ until) × (until ≤ now + cfg.max_ttl_ms))
unfolding grant_ttl
grant_ttl-bounds omitted cfg now h = ground arith
grant_ttl-bounds no_expiry cfg now h = ground arith
grant_ttl-bounds (lasting ttl) cfg now h = ground arith
