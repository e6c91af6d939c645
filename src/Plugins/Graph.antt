-- ===== src/Plugins/Graph.antt =====
-- packages/plugin/src/graph.ts: who provides what, the edges from a plugin to the providers of what
-- it injects, and Kahn's algorithm with a deterministic choice among the plugins that are ready.
-- A set of strings is a list here. An error keeps what its message is made of, not the text.
pub mod Kahn
pub mod Edges
pub mod Keys
pub mod Order
use agentback.Base.{
  ℕ, zero, suc, String, Bool, true, false, not, ◌&&◌, ◌||◌, Option, none, some, List, [], ◌∷◌, ◌++◌,
  map, length, any, select, ltb, ◌==◌, str_eq, if◌then◌else◌, Result, ok, err, ◌>>=◌, ◌>>◌,
}
use agentback.Base.Map.{Map, lookup, insert, erase, has}

-- The fields that the graph reads.
pub record PluginInfo : Type 0 where
  pub name : String
  pub provides : List String
  pub inject : List String

pub data PluginLoadError : Type 0 where
  duplicate_provides : String → List String → PluginLoadError  -- the key, and all who claim it
  unsatisfied_inject : String → String → Option String → PluginLoadError  -- plugin, key, who the gate left out
  dependency_cycle : List String → PluginLoadError

pub record SortInput : Type 0 where
  pub gated : List PluginInfo
  pub skipped : List PluginInfo
  pub app_owned_keys : List String
  pub order : List String
  pub allow_override : List String

abbrev pub includes : List String → String → Bool
includes xs x = any (λ y. str_eq y x) xs

pub record Claims : Type 0 where
  pub providers : Map (List String)
  pub duplicates : Map (List String)

abbrev pub with_default : List String → Option (List String) → List String
with_default prior none = prior
with_default prior (some list) = list

abbrev claim_over : List String → String → String → Claims → Option (List String) → Claims
claim_over allow name key c none = record c { providers = insert key (name ∷ []) c.providers }
claim_over allow name key c (some prior) =
    if not (includes allow key)
    then record c {
      duplicates =
          insert key (with_default prior (lookup key c.duplicates) ++ name ∷ []) c.duplicates;
    }
    else record c { providers = insert key (prior ++ name ∷ []) c.providers }

-- One `provides` entry of one plugin.
unfoldable pub claim : List String → String → String → Claims → Claims
claim allow name key c = claim_over allow name key c (lookup key c.providers)

unfoldable pub claim_all : List String → String → List String → Claims → Claims
claim_all allow name [] c = c
claim_all allow name (key ∷ keys) c = claim_all allow name keys (claim allow name key c)

unfoldable pub claims : List String → List PluginInfo → Claims → Claims
claims allow [] c = c
claims allow (p ∷ ps) c = claims allow ps (claim_all allow p.name p.provides c)

-- Who of the skipped plugins would have provided a key: the last one that declares it.
unfoldable pub skipped_provider : List PluginInfo → String → Option String
skipped_provider [] key = none
skipped_provider (p ∷ ps) key = elim (skipped_provider ps key) [
  | some name ↦ some name
  | none ↦ if includes p.provides key then some p.name else none
]

abbrev pub or_empty : Option (List String) → List String
or_empty none = []
or_empty (some names) = names

module _ (input : SortInput) (providers : Map (List String)) where
  -- What is missing of what one plugin injects.
  unfoldable pub unsatisfied : String → List String → List PluginLoadError
  unsatisfied name [] = []
  unsatisfied name (key ∷ keys) =
      let rest = unsatisfied name keys in
      if includes input.app_owned_keys key || has key providers
      then rest
      else unsatisfied_inject name key (skipped_provider input.skipped key) ∷ rest

  unfoldable pub all_unsatisfied : List PluginInfo → List PluginLoadError
  all_unsatisfied [] = []
  all_unsatisfied (p ∷ ps) = unsatisfied p.name p.inject ++ all_unsatisfied ps

  -- The plugins that one plugin waits for: every provider of a key that the application does not bind.
  unfoldable pub depends_on : String → List String → List String
  depends_on name [] = []
  depends_on name (key ∷ keys) =
      let rest = depends_on name keys in
      if includes input.app_owned_keys key
      then rest
      else select (λ q. not (str_eq q name)) (or_empty (lookup key providers)) ++ rest

abbrev pub index_from : ℕ → List String → String → Option ℕ
index_from i [] name = none
index_from i (n ∷ ns) name =
    let rest = index_from (suc i) ns name in
    elim rest [ some j ↦ some j | none ↦ if str_eq n name then some i else none ]

-- Where one index is missing, MAX_SAFE_INTEGER stands for it: after all others, and even with another.
abbrev pub rank_less : Option ℕ → Option ℕ → Bool
rank_less (some i) (some j) = ltb i j
rank_less (some i) none = true
rank_less none _ = false

abbrev pub rank_same : Option ℕ → Option ℕ → Bool
rank_same (some i) (some j) = i == j
rank_same none none = true
rank_same _ _ = false

-- The order among the plugins that are ready: the manifest's, then that of discovery.
unfoldable pub before : List String → List String → String → String → Bool
before order discovered a b =
    let ao = index_from 0 order a in
    let bo = index_from 0 order b in
    if rank_same ao bo
    then rank_less (index_from 0 discovered a) (index_from 0 discovered b)
    else rank_less ao bo

-- The loop. `Entry` is an entry of the map `remaining`.
abbrev pub Entry : Type 0
Entry = String × PluginInfo

module _ (waits_for : PluginInfo → List String) (precedes : String → String → Bool) where
  unfoldable pub is_ready : Map PluginInfo → Entry → Bool
  is_ready remaining e = not (any (λ d. has d remaining) (waits_for e.1))

  -- `ready.sort(…)[0]`; the sort is stable.
  abbrev pub first_of : Entry → List Entry → Entry
  first_of e [] = e
  first_of e (d ∷ ds) = first_of (if precedes d.0 e.0 then d else e) ds

  abbrev pub next_of : List Entry → Option Entry
  next_of [] = none
  next_of (e ∷ es) = some (first_of e es)

  unfoldable pub kahn : ℕ → Map PluginInfo → List Entry × Map PluginInfo
  kahn zero remaining = ([], remaining)
  kahn (suc fuel) remaining = elim (next_of (select (is_ready remaining) remaining)) [
    | none ↦ ([], remaining)
    | some e ↦ let (ordered, left) = kahn fuel (erase e.0 remaining) in (e ∷ ordered, left)
  ]

abbrev pub remaining_of : List PluginInfo → Map PluginInfo → Map PluginInfo
remaining_of [] m = m
remaining_of (p ∷ ps) m = remaining_of ps (insert p.name p m)

abbrev pub duplicate_errors : Map (List String) → List PluginLoadError
duplicate_errors [] = []
duplicate_errors ((key, names) ∷ m) = duplicate_provides key names ∷ duplicate_errors m

abbrev pub no_errors : List PluginLoadError → Result (List PluginLoadError) (Unit {0})
no_errors [] = ok tt
no_errors (e ∷ es) = err (e ∷ es)

abbrev pub all_mounted : List Entry × Map PluginInfo → Result (List PluginLoadError) (List Entry)
all_mounted (ordered, []) = ok ordered
all_mounted (ordered, e ∷ left) = err (dependency_cycle (map (λ d. d.0) (e ∷ left)) ∷ [])

-- What all the gated plugins of a name wait for: they share one set.
unfoldable pub waits_of : SortInput → Map (List String) → String → List PluginInfo → List String
unfolding depends_on
waits_of input providers name [] = []
waits_of input providers name (p ∷ ps) =
    let rest = waits_of input providers name ps in
    if str_eq p.name name then depends_on input providers p.name p.inject ++ rest else rest

abbrev pub waits : SortInput → Map (List String) → PluginInfo → List String
waits input providers p = waits_of input providers p.name input.gated

abbrev pub providers_of : SortInput → Claims
providers_of input =
    claims input.allow_override input.gated (record { providers = []; duplicates = [] })

abbrev pub mount : SortInput → Map (List String) → List Entry × Map PluginInfo
mount input providers =
    kahn (waits input providers) (before input.order (map (λ p. p.name) input.gated))
      (length (remaining_of input.gated [])) (remaining_of input.gated [])

unfoldable pub sort_by_graph : SortInput → Result (List PluginLoadError) (List Entry)
sort_by_graph input = do
  no_errors (duplicate_errors (providers_of input).duplicates)
  no_errors (all_unsatisfied input (providers_of input).providers input.gated)
  all_mounted (mount input (providers_of input).providers)
