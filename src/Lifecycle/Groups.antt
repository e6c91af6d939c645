-- ===== src/Lifecycle/Groups.antt =====
-- Which group an observer is in, and the groups in their order.
use agentback.Base.{
  ℕ, zero, suc, String, Bool, true, false, Option, none, some, List, [], ◌∷◌, ◌++◌, any, find, map,
  select, ltb, str_eq, if◌then◌else◌,
}
use agentback.Base.Map.{Map, lookup}

pub record Observer : Type 0 where
  pub key : String
  pub tag_map : Map String

pub record Group : Type 0 where
  pub group : String
  pub bindings : List Observer

pub record Options : Type 0 where
  pub parallel : Bool
  pub ordered_groups : List String
  pub disabled_groups : List String

abbrev life_cycle_observer_group : String
life_cycle_observer_group = "lifeCycleObserverGroup"

abbrev pub member : String → List String → Bool
member k keys = any (λ i. str_eq i k) keys

abbrev is_tagged : Observer → String → Bool
is_tagged o g = elim (lookup g o.tag_map) [ none ↦ false | some value ↦ str_eq value g ]

abbrev or_blank : Option String → String
or_blank none = ""
or_blank (some s) = s

-- getObserverGroup; an empty tag counts as no tag.
unfoldable pub get_observer_group : Options → Observer → String
get_observer_group options o =
    let group = or_blank (lookup life_cycle_observer_group o.tag_map) in
    if str_eq group "" then or_blank (find (is_tagged o) options.ordered_groups) else group

-- One more than `order.indexOf(phase)`.
pub rank : String → List String → ℕ
rank phase [] = 0
rank phase (g ∷ order) =
    let later = rank phase order in
    if str_eq g phase then 1 else (elim later [ zero ↦ zero | suc i ↦ suc (suc i) ])

abbrev push_to : Group → Observer → Group
push_to g o = record g { bindings = g.bindings ++ o ∷ [] }

-- `groupMap.get(group)`, or a new entry at its end, and `push`
pub add_to : String → Observer → List Group → List Group
add_to name o [] = record { group = name; bindings = o ∷ [] } ∷ []
add_to name o (g ∷ groups) =
    if str_eq g.group name then push_to g o ∷ groups else g ∷ add_to name o groups

pub group_from : Options → List Group → List Observer → List Group
unfolding get_observer_group add_to
group_from options groups [] = groups
group_from options groups (o ∷ observers) =
    group_from options (add_to (get_observer_group options o) o groups) observers

abbrev pub restrict : List String → Group → Group
restrict keys g = record g { bindings = select (λ o. member o.key keys) g.bindings }

abbrev pub has_bindings : Group → Bool
has_bindings g = elim g.bindings [ [] ↦ false | x ∷ xs ↦ true ]

abbrev pub select_from : List String → List Group → List Group
select_from keys groups = select has_bindings (map (restrict keys) groups)

-- `a < b` on strings is a parameter.
module _ (less : String → String → Bool) where
  -- compareByOrder, as the test that it is negative
  abbrev comes_before : List String → String → String → Bool
  comes_before order a b = elim (rank a order) [
    | zero ↦ elim (rank b order) [ zero ↦ less a b | suc j ↦ true ]
    | suc i ↦ ltb (suc i) (rank b order)
  ]

  abbrev phase_of : Observer → String
  phase_of o = or_blank (lookup life_cycle_observer_group o.tag_map)

  pub insert_sorted : List String → Observer → List Observer → List Observer
  unfolding rank
  insert_sorted order o [] = o ∷ []
  insert_sorted order o (x ∷ xs) =
      if comes_before order (phase_of o) (phase_of x)
      then o ∷ x ∷ xs
      else x ∷ insert_sorted order o xs

  -- sortBindingsByPhase: `Array.prototype.sort` is stable, so that each binding goes behind those that
  -- it does not come before.
  unfoldable pub sort_by_phase : List String → List Observer → List Observer → List Observer
  unfolding insert_sorted
  sort_by_phase order sorted [] = sorted
  sort_by_phase order sorted (o ∷ observers) =
      sort_by_phase order (insert_sorted order o sorted) observers

  -- getObserverGroupsByOrder, with sortObserverBindingsByGroup
  unfoldable pub get_observer_groups_by_order : Options → List Observer → List Group
  unfolding sort_by_phase group_from
  get_observer_groups_by_order options observers =
      group_from options [] (sort_by_phase options.ordered_groups [] observers)

  -- selectGroups
  unfoldable pub select_groups : Options → List String → List Observer → List Group
  unfolding get_observer_groups_by_order
  select_groups options [] observers = []
  select_groups options (k ∷ keys) observers =
      select_from (k ∷ keys) (get_observer_groups_by_order options observers)
