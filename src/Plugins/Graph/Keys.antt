-- ===== src/Plugins/Graph/Keys.antt =====
-- The plugins that the loop mounts stand under their own names.
use agentback.Base.{
  ℕ, zero, suc, ◌≡◌, refl, String, Bool, List, [], ◌∷◌, select, str_eq, eq_iff, All, All-select,
  Option-cases, Bool-cases, inl, inr,
}
use agentback.Base.Map.{Map, insert, erase}
use agentback.Plugins.Graph.{PluginInfo, Entry, is_ready, next_of, kahn, remaining_of}
use agentback.Plugins.Graph.Kahn.{next_of-All, kahn-none, kahn-some}

abbrev pub IsNamed : Entry → Type 0
IsNamed e = e.0 ≡ e.1.name

insert-IsNamed :
    (p : PluginInfo) (m : Map PluginInfo) → All IsNamed m → All IsNamed (insert p.name p m)
unfolding insert
insert-IsNamed p [] h = (refl, tt)
insert-IsNamed p ((j, q) ∷ m) h = elim (Bool-cases (str_eq j p.name)) [
  | inl same ↦ rw same ((eq_iff j p.name).0 same, h.1)
  | inr other ↦ rw other (h.0, insert-IsNamed p m h.1)
]

remaining_of-IsNamed :
    (ps : List PluginInfo) (m : Map PluginInfo) → All IsNamed m → All IsNamed (remaining_of ps m)
remaining_of-IsNamed [] m h = h
remaining_of-IsNamed (p ∷ ps) m h =
    remaining_of-IsNamed ps (insert p.name p m) (insert-IsNamed p m h)

erase-IsNamed : (k : String) (m : Map PluginInfo) → All IsNamed m → All IsNamed (erase k m)
unfolding erase
erase-IsNamed k [] h = tt
erase-IsNamed k ((j, q) ∷ m) h = elim (Bool-cases (str_eq j k)) [
  | inl same ↦ rw same (erase-IsNamed k m h.1)
  | inr other ↦ rw other (h.0, erase-IsNamed k m h.1)
]

module _ (waits_for : PluginInfo → List String) (precedes : String → String → Bool) where
  kahn-IsNamed :
      (fuel : ℕ) (remaining : Map PluginInfo)
      → All IsNamed remaining
      → All IsNamed (kahn waits_for precedes fuel remaining).0
  unfolding kahn
  kahn-IsNamed zero remaining h = tt
  kahn-IsNamed (suc fuel) remaining h =
      elim (Option-cases
        (next_of waits_for precedes (select (is_ready waits_for precedes remaining) remaining))) [
          | inl p ↦ rw (kahn-none waits_for precedes fuel remaining p) tt
          | inr (e, p) ↦ rw (kahn-some waits_for precedes fuel remaining e p) (
            next_of-All waits_for precedes IsNamed _ e p
                (All-select IsNamed (is_ready waits_for precedes remaining) remaining h),
            kahn-IsNamed fuel (erase e.0 remaining) (erase-IsNamed e.0 remaining h),
          )
        ]

  -- The loop over the gated plugins.
  pub mounted-IsNamed :
      (fuel : ℕ) (ps : List PluginInfo)
      → All IsNamed (kahn waits_for precedes fuel (remaining_of ps [])).0
  mounted-IsNamed fuel ps = kahn-IsNamed fuel (remaining_of ps []) (remaining_of-IsNamed ps [] tt)
