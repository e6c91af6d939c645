-- ===== src/Subscriptions.antt =====
-- packages/mcp/src/events: the time that a webhook subscription is granted (subscriptions.ts), and the
-- store of one process (in-memory-store.ts), which drops what has lapsed when it comes across it.
pub mod Lease
use agentback.Base.{
  ℕ, ◌+◌, String, Bool, true, false, not, ◌&&◌, Option, none, some, List, [], ◌∷◌, length, ltb, leb,
  min, max, select, str_eq, if◌then◌else◌,
}
use agentback.Base.Map.{Map, lookup, insert, erase}

-- The part of the configuration that grants a time.
pub record EventsConfig : Type 0 where
  pub default_ttl_ms : ℕ
  pub min_ttl_ms : ℕ
  pub max_ttl_ms : ℕ
  pub allow_no_expiry : Bool

-- The `ttlMs` of a request: left out, null, or a number.
pub data Requested : Type 0 where
  omitted no_expiry : Requested
  lasting : ℕ → Requested

abbrev clamp : EventsConfig → ℕ → ℕ
clamp cfg ttl = min (max ttl cfg.min_ttl_ms) cfg.max_ttl_ms

-- grantTtl; `none` is a subscription that does not expire.
unfoldable pub grant_ttl : Requested → EventsConfig → ℕ → Option ℕ
grant_ttl (lasting ttl) cfg now = some (now + clamp cfg ttl)
grant_ttl no_expiry cfg now =
    if cfg.allow_no_expiry then none else some (now + clamp cfg cfg.default_ttl_ms)
grant_ttl omitted cfg now = some (now + clamp cfg cfg.default_ttl_ms)

-- The fields that the store reads.
pub record EventSubscription : Type 0 where
  pub id : String
  pub principal : String
  pub name : String
  pub expires_at : Option ℕ

pub record Store : Type 0 where
  pub subs : Map EventSubscription
  pub verified : Map ℕ

abbrev pub live_until : Option ℕ → ℕ → Bool
live_until none now = true
live_until (some t) now = ltb now t

-- live
abbrev pub live : ℕ → EventSubscription → Bool
live now sub = live_until sub.expires_at now

-- put
unfoldable pub put : EventSubscription → Store → Store
put sub s = record s { subs = insert sub.id sub s.subs }

abbrev pub get_over :
    ℕ → String → Store → Option EventSubscription → Option EventSubscription × Store
get_over now id s none = (none, s)
get_over now id s (some sub) =
    if not (live now sub) then (none, record s { subs = erase id s.subs }) else (some sub, s)

-- get
unfoldable pub get : ℕ → String → Store → Option EventSubscription × Store
get now id s = get_over now id s (lookup id s.subs)

abbrev pub delete_over : String → Option EventSubscription × Store → Bool × Store
delete_over id (none, s) = (false, s)
delete_over id (some sub, s) = (true, record s { subs = erase id s.subs })

-- delete
unfoldable pub delete : ℕ → String → Store → Bool × Store
unfolding get
delete now id s = delete_over id (get now id s)

-- sweep: the live subscriptions, and the map that is left.
unfoldable pub sweep : ℕ → Map EventSubscription → List EventSubscription × Map EventSubscription
sweep now [] = ([], [])
sweep now ((id, sub) ∷ m) =
    let (out, rest) = sweep now m in
    if live now sub then (sub ∷ out, (id, sub) ∷ rest) else (out, rest)

-- listByEvent
unfoldable pub list_by_event : ℕ → String → Store → List EventSubscription × Store
unfolding sweep
list_by_event now name s =
    let (out, subs) = sweep now s.subs in
    (select (λ sub. str_eq sub.name name) out, record s { subs = subs })

-- countByPrincipal
unfoldable pub count_by_principal : ℕ → String → Store → ℕ × Store
unfolding sweep
count_by_principal now principal s =
    let (out, subs) = sweep now s.subs in
    (length (select (λ sub. str_eq sub.principal principal) out), record s { subs = subs })

-- What `JSON.stringify([principal, url])` gives is a parameter.
module _ (verification_key : String → String → String) where
  abbrev is_verified_over : ℕ → String → Store → Option ℕ → Bool × Store
  is_verified_over now key s none = (false, s)
  is_verified_over now key s (some until) =
      if leb until now then (false, record s { verified = erase key s.verified }) else (true, s)

  -- isVerified
  unfoldable pub is_verified : ℕ → String → String → Store → Bool × Store
  is_verified now principal url s =
      let key = verification_key principal url in is_verified_over now key s (lookup key s.verified)

  abbrev drop_lapsed : ℕ → Map ℕ → Map ℕ
  drop_lapsed now [] = []
  drop_lapsed now ((key, until) ∷ m) =
      let rest = drop_lapsed now m in if leb until now then rest else (key, until) ∷ rest

  -- markVerified
  unfoldable pub mark_verified : ℕ → String → String → ℕ → Store → Store
  mark_verified now principal url ttl_ms s =
      let verified = insert (verification_key principal url) (now + ttl_ms) s.verified in
      record s {
        verified = if ltb 10000 (length verified) then drop_lapsed now verified else verified;
      }
