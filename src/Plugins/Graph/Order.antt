-- ===== src/Plugins/Graph/Order.antt =====
-- The order in which the plugin graph mounts.
use agentback.Base.{
  All, ℕ, zero, suc, ◌≡◌, refl, ap, subst, String, Bool, true, false, ◌||◌, List, [], ◌∷◌, any,
  select, str_eq, length, map, eq_iff, arith, Option-cases, Result, ok, inl, inr, ◌>>◌,
}
use agentback.Base.Map.{Map, lookup, insert, erase, has, lookup-insert}
use agentback.Plugins.Graph.{
  PluginInfo, SortInput, PluginLoadError, Entry, includes, is_ready, next_of, kahn, remaining_of,
  no_errors, duplicate_errors, all_mounted, waits, providers_of, mount, before, sort_by_graph,
}
use agentback.Plugins.Graph.Keys.{IsNamed, mounted-IsNamed}
use agentback.Plugins.Graph.Edges.{Needs, waits-Needs}
use agentback.Plugins.Graph.Kahn.{mounted, has-erase, next-ready, kahn-none, kahn-some, kahn-keeps}

any-includes :
    (p : String → Bool) (xs : List String) (d : String)
    → any p xs ≡ false
    → includes xs d ≡ true
    → p d ≡ false
any-includes p [] d h k = absurd (ground arith)
any-includes p (x ∷ xs) d h k = ground (arith, any-includes p xs d, eq_iff x d)

module _ (waits_for : PluginInfo → List String) (left : Map PluginInfo) where
  -- Each plugin once, after all it waits for.
  abbrev pub InOrder : List Entry → Type 0
  InOrder [] = Unit
  InOrder (e ∷ es) =
      ((d : String)
        → includes (waits_for e.1) d ≡ true
        → (mounted d (e ∷ es) ≡ false) × (has d left ≡ false))
      × (mounted e.0 es ≡ false)
      × InOrder es

module _ (waits_for : PluginInfo → List String) (precedes : String → String → Bool) where
  -- What a ready plugin waits for is not mounted with it or after it, and not left over.
  gone :
      (remaining : Map PluginInfo) (e : Entry) (d : String) (es : List Entry)
      (left : Map PluginInfo)
      → is_ready waits_for precedes remaining e ≡ true
      → includes (waits_for e.1) d ≡ true
      → has d (erase e.0 remaining) ≡ (mounted d es || has d left)
      → has e.0 remaining ≡ true
      → (mounted d (e ∷ es) ≡ false) × (has d left ≡ false)
  unfolding is_ready
  gone remaining e d es left r i k h =
      let a : has d remaining ≡ false =
        any-includes (λ x. has x remaining) (waits_for e.1) d (ground arith) i in
      ground (arith, has-erase e.0 d remaining, eq_iff e.0 d)

  kahn-InOrder :
      (fuel : ℕ) (remaining : Map PluginInfo)
      → InOrder waits_for
          (kahn waits_for precedes fuel remaining).1
          (kahn waits_for precedes fuel remaining).0
  unfolding kahn
  kahn-InOrder zero remaining = tt
  kahn-InOrder (suc fuel) remaining =
      elim (Option-cases
        (next_of waits_for precedes (select (is_ready waits_for precedes remaining) remaining))) [
          | inl p ↦ rw (kahn-none waits_for precedes fuel remaining p) tt
          | inr (e, p) ↦ rw (kahn-some waits_for precedes fuel remaining e p) (
              let rest = kahn-keeps waits_for precedes fuel (erase e.0 remaining) in
              let (r, h) = next-ready waits_for precedes remaining e p in
              (
                λ d i. gone remaining e d _ _ r i (rest d) h,
                ground (arith, rest e.0, has-erase e.0 e.0 remaining, eq_iff e.0 e.0),
                kahn-InOrder fuel (erase e.0 remaining),
              ))
        ]

all_mounted-ok :
    (r : List Entry × Map PluginInfo) (ordered : List Entry)
    → all_mounted r ≡ ok ordered
    → (r.0 ≡ ordered) × (r.1 ≡ [])
all_mounted-ok (es, []) ordered h = (ground arith, refl)
all_mounted-ok (es, e ∷ left) ordered h = absurd (ground arith)

no_errors-ok :
    (es : List PluginLoadError) {B : Type 0} (k : Result (List PluginLoadError) B) (b : B)
    → (no_errors es >> k) ≡ ok b
    → k ≡ ok b
no_errors-ok [] k b h = h
no_errors-ok (e ∷ es) k b h = absurd (ground arith)

module _ (input : SortInput) where
  abbrev pub waiting_for : PluginInfo → List String
  waiting_for = waits input (providers_of input).providers

  sorted_loop :
      (ordered : List Entry)
      → sort_by_graph input ≡ ok ordered
      → ((mount input (providers_of input).providers).0 ≡ ordered)
        × ((mount input (providers_of input).providers).1 ≡ [])
  unfolding sort_by_graph
  sorted_loop ordered h =
      all_mounted-ok _ ordered (no_errors-ok _ _ ordered (no_errors-ok _ _ ordered h))

  -- The order by what the loop waits for.
  sort_by_graph-InOrder :
      (ordered : List Entry)
      → sort_by_graph input ≡ ok ordered
      → InOrder waiting_for [] ordered
        × ((name : String) → mounted name ordered ≡ has name (remaining_of input.gated []))
  unfolding has lookup
  sort_by_graph-InOrder ordered h =
      let all = remaining_of input.gated [] in
      let precedes = before input.order (map (λ p. p.name) input.gated) in
      let (a, b) = sorted_loop ordered h in
      (
        subst (InOrder waiting_for []) a (
            subst (λ left. InOrder waiting_for left (mount input (providers_of input).providers).0)
              b (kahn-InOrder waiting_for precedes (length all) all)),
        λ name.
            let k = kahn-keeps waiting_for precedes (length all) all name in
            let m = ap (mounted name) a in let l = ap (has name) b in ground arith,
      )

  has-remaining_of :
      (ps : List PluginInfo) (m : Map PluginInfo) (name : String)
      → has name (remaining_of ps m) ≡ (any (λ p. str_eq p.name name) ps || has name m)
  unfolding has
  has-remaining_of [] m name = refl
  has-remaining_of (p ∷ ps) m name =
      ground (arith, has-remaining_of ps (insert p.name p m) name, lookup-insert p.name name p m)

  none_there : (name : String) → has {V = PluginInfo} name [] ≡ false
  unfolding has lookup
  none_there name = refl

  -- Each plugin once, and none before one that it needs.
  abbrev pub AfterNeeds : List Entry → Type 0
  AfterNeeds [] = Unit
  AfterNeeds (e ∷ es) =
      ((dep : String) → Needs input e.1.name dep → mounted dep (e ∷ es) ≡ false)
      × (mounted e.0 es ≡ false)
      × AfterNeeds es

  InOrder-AfterNeeds :
      (providers_of input).duplicates ≡ []
      → (es : List Entry) → InOrder waiting_for [] es
      → AfterNeeds es
  InOrder-AfterNeeds unique [] h = tt
  InOrder-AfterNeeds unique (e ∷ es) (first, once, rest) = (
    (λ dep needs. (first dep (waits-Needs input e.1 dep unique needs)).0),
    once,
    InOrder-AfterNeeds unique es rest,
  )

  duplicates_none :
      (m : Map (List String)) {B : Type 0} (k : Result (List PluginLoadError) B) (b : B)
      → (no_errors (duplicate_errors m) >> k) ≡ ok b
      → m ≡ []
  duplicates_none [] k b h = refl
  duplicates_none ((key, names) ∷ m) k b h = absurd (ground arith)

  -- When the graph can be sorted, every gated plugin is mounted, under its name, nothing else is, none
  -- twice, and none before a gated plugin of another name that provides a key which it injects and the
  -- application does not bind. That holds for every provider of the key, where an override allows
  -- several, and for what all gated plugins of the same name inject.
  pub sort_by_graph-AfterNeeds :
      (ordered : List Entry)
      → sort_by_graph input ≡ ok ordered
      → AfterNeeds ordered
        × All IsNamed ordered
        × ((name : String) → mounted name ordered ≡ any (λ p. str_eq p.name name) input.gated)
  unfolding sort_by_graph
  sort_by_graph-AfterNeeds ordered h =
      let (in_order, all) = sort_by_graph-InOrder ordered h in
      let unique = duplicates_none (providers_of input).duplicates _ ordered h in
      (
        InOrder-AfterNeeds unique ordered in_order,
        subst (All IsNamed) (sorted_loop ordered h).0 (
            mounted-IsNamed waiting_for (before input.order (map (λ p. p.name) input.gated))
              (length (remaining_of input.gated [])) input.gated),
        λ name. ground (arith, all name, has-remaining_of input.gated [] name, none_there name),
      )
