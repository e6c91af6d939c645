-- ===== src/Plugins/Graph/Edges.antt =====
-- The edges of the plugin graph, by what the plugins provide and inject.
use agentback.Base.{
  ◌≡◌, ◌≢◌, refl, sym, ap, subst, String, Bool, true, false, not, ◌||◌, ◌⊎◌, inl, inr, Option, none,
  some, List, [], ◌∷◌, ◌++◌, select, str_eq, eq_iff, eq_refl, arith, Bool-cases, if_rule,
  if◌then◌else◌, ◌∙◌,
}
use agentback.Base.Map.{Map, lookup, insert, lookup-insert}
use agentback.Plugins.Graph.{
  PluginInfo, SortInput, includes, Claims, claim_over, with_default, claim, claim_all, claims,
  or_empty, depends_on, waits_of, waits, providers_of,
}

-- A plugin is one of a list.
abbrev pub Among : PluginInfo → List PluginInfo → Type 0
Among q [] = ⊥
Among q (p ∷ ps) = (q ≡ p) ⊎ Among q ps

-- A gated plugin of the one name injects a key which the application does not bind, and another gated
-- plugin, of the other name, provides it.
abbrev pub Needs : SortInput → String → String → Type 0
Needs input name dep =
    (p : PluginInfo) × (q : PluginInfo) × (key : String) × Among p input.gated
    × Among q input.gated
    × (p.name ≡ name)
    × (q.name ≡ dep)
    × (includes p.inject key ≡ true)
    × (includes input.app_owned_keys key ≡ false)
    × (includes q.provides key ≡ true)
    × (dep ≢ name)

abbrev is_none : {A : Type 0} → List A → Bool
is_none [] = true
is_none (x ∷ xs) = false

-- A plugin is among the providers of a key, unless some key has been claimed twice.
abbrev claimed : String → String → Claims → Bool
claimed key name c = includes (or_empty (lookup key c.providers)) name || not (is_none c.duplicates)

includes-append :
    (xs ys : List String) (x : String) → includes (xs ++ ys) x ≡ (includes xs x || includes ys x)
includes-append [] ys x = refl
includes-append (y ∷ xs) ys x = ground (arith, includes-append xs ys x)

not_empty-insert :
    (key : String) (names : List String) (m : Map (List String))
    → is_none (insert key names m) ≡ false
unfolding insert
not_empty-insert key names [] = refl
not_empty-insert key names ((k, v) ∷ m) = ground arith

module _ (allow : List String) where
  claim_over-claimed :
      (name key : String) (c : Claims) (o : Option (List String))
      → claimed key name (claim_over allow name key c o) ≡ true
  claim_over-claimed name key c none =
      rw (lookup-insert key key (name ∷ []) c.providers) (ground (arith, eq_refl key, eq_refl name))
  claim_over-claimed name key c (some prior) =
      if_rule (λ d. claimed key name d ≡ true) (not (includes allow key)) _ _
        (λ _.
          rw
            (not_empty-insert key (with_default prior (lookup key c.duplicates) ++ name ∷ [])
              c.duplicates)
            (ground arith))
        (λ _.
          rw (lookup-insert key key (prior ++ name ∷ []) c.providers)
            (ground (arith, eq_refl key, includes-append prior (name ∷ []) name, eq_refl name)))

  claim_over-keeps :
      (name key : String) (c : Claims) (k n : String) (o : Option (List String))
      → lookup key c.providers ≡ o
      → claimed k n c ≡ true
      → claimed k n (claim_over allow name key c o) ≡ true
  claim_over-keeps name key c k n none p h =
      rw (lookup-insert key k (name ∷ []) c.providers) (ground (arith, eq_iff key k))
  claim_over-keeps name key c k n (some prior) p h =
      if_rule (λ d. claimed k n d ≡ true) (not (includes allow key)) _ _
        (λ _.
          rw
            (not_empty-insert key (with_default prior (lookup key c.duplicates) ++ name ∷ [])
              c.duplicates)
            (ground arith))
        (λ _.
          rw (lookup-insert key k (prior ++ name ∷ []) c.providers)
            (ground (arith, eq_iff key k, includes-append prior (name ∷ []) n)))

  claim-claimed :
      (name key : String) (c : Claims) → claimed key name (claim allow name key c) ≡ true
  unfolding claim
  claim-claimed name key c = claim_over-claimed name key c (lookup key c.providers)

  claim-keeps :
      (name key : String) (c : Claims) (k n : String)
      → claimed k n c ≡ true
      → claimed k n (claim allow name key c) ≡ true
  unfolding claim
  claim-keeps name key c k n h = claim_over-keeps name key c k n (lookup key c.providers) refl h

  claim_all-keeps :
      (name : String) (keys : List String) (c : Claims) (k n : String)
      → claimed k n c ≡ true
      → claimed k n (claim_all allow name keys c) ≡ true
  unfolding claim_all
  claim_all-keeps name [] c k n h = h
  claim_all-keeps name (key ∷ keys) c k n h =
      claim_all-keeps name keys (claim allow name key c) k n (claim-keeps name key c k n h)

  claim_all-claimed :
      (name : String) (keys : List String) (c : Claims) (k : String)
      → includes keys k ≡ true
      → claimed k name (claim_all allow name keys c) ≡ true
  unfolding claim_all
  claim_all-claimed name [] c k h = absurd (ground arith)
  claim_all-claimed name (key ∷ keys) c k h = elim (Bool-cases (str_eq key k)) [
    | inl same ↦ claim_all-keeps name keys (claim allow name key c) k name (
        subst (λ j. claimed j name (claim allow name key c) ≡ true) ((eq_iff key k).0 same)
          (claim-claimed name key c))
    | inr other ↦ claim_all-claimed name keys (claim allow name key c) k (ground arith)
  ]

  claims-keeps :
      (ps : List PluginInfo) (c : Claims) (k n : String)
      → claimed k n c ≡ true
      → claimed k n (claims allow ps c) ≡ true
  unfolding claims
  claims-keeps [] c k n h = h
  claims-keeps (p ∷ ps) c k n h =
      claims-keeps ps (claim_all allow p.name p.provides c) k n
        (claim_all-keeps p.name p.provides c k n h)

  claims-claimed :
      (ps : List PluginInfo) (c : Claims) (q : PluginInfo) (k : String)
      → Among q ps
      → includes q.provides k ≡ true
      → claimed k q.name (claims allow ps c) ≡ true
  unfolding claims
  claims-claimed [] c q k m h = absurd m
  claims-claimed (p ∷ ps) c q k (inl e) h =
      claims-keeps ps (claim_all allow p.name p.provides c) k q.name (
        subst (λ x. claimed k q.name (claim_all allow x.name x.provides c) ≡ true) e
          (claim_all-claimed q.name q.provides c k h))
  claims-claimed (p ∷ ps) c q k (inr m) h =
      claims-claimed ps (claim_all allow p.name p.provides c) q k m h

includes-select :
    (f : String → Bool) (xs : List String) (x : String)
    → includes xs x ≡ true
    → f x ≡ true
    → includes (select f xs) x ≡ true
includes-select f [] x h k = absurd (ground arith)
includes-select f (y ∷ xs) x h k = ground (arith, includes-select f xs x, eq_iff y x)

module _ (input : SortInput) (providers : Map (List String)) where
  depends_on-provider :
      (name dep key : String) (keys : List String)
      → includes keys key ≡ true
      → includes input.app_owned_keys key ≡ false
      → includes (or_empty (lookup key providers)) dep ≡ true
      → str_eq dep name ≡ false
      → includes (depends_on input providers name keys) dep ≡ true
  unfolding depends_on
  depends_on-provider name dep key [] h free p d = absurd (ground arith)
  depends_on-provider name dep key (k ∷ keys) h free p d = elim (Bool-cases (str_eq k key)) [
    | inl same ↦
        let here = (eq_iff k key).0 same in
        let edge =
          includes-select (λ q. not (str_eq q name)) (or_empty (lookup key providers)) dep p
            (ground arith) in
        rw (here, free)
          (ground (
            arith,
            edge,
            includes-append (select (λ q. not (str_eq q name)) (or_empty (lookup key providers)))
                (depends_on input providers name keys) dep,
          ))
    | inr other ↦
        let rest = depends_on-provider name dep key keys (ground arith) free p d in
        if_rule (λ xs. includes xs dep ≡ true) (includes input.app_owned_keys k)
          (depends_on input providers name keys)
          (select (λ q. not (str_eq q name)) (or_empty (lookup k providers))
            ++ depends_on input providers name keys)
          (λ _. rest)
          (λ _. ground (
            arith,
            rest,
            includes-append (select (λ q. not (str_eq q name)) (or_empty (lookup k providers)))
                (depends_on input providers name keys) dep,
          ))
  ]

  waits_of-Among :
      (ps : List PluginInfo) (p : PluginInfo) (dep : String)
      → Among p ps
      → includes (depends_on input providers p.name p.inject) dep ≡ true
      → includes (waits_of input providers p.name ps) dep ≡ true
  unfolding waits_of
  waits_of-Among [] p dep m h = absurd m
  waits_of-Among (q ∷ ps) p dep (inl e) h =
      subst
        (λ x.
          includes
            (if str_eq x.name p.name
              then depends_on input providers x.name x.inject ++ waits_of input providers p.name ps
              else waits_of input providers p.name ps)
            dep
          ≡ true)
        e
        (rw (eq_refl p.name) (
          ground (
            arith,
            includes-append (depends_on input providers p.name p.inject)
                (waits_of input providers p.name ps) dep,
          )))
  waits_of-Among (q ∷ ps) p dep (inr m) h =
      let rest = waits_of-Among ps p dep m h in
      if_rule (λ xs. includes xs dep ≡ true) (str_eq q.name p.name)
        (depends_on input providers q.name q.inject ++ waits_of input providers p.name ps)
        (waits_of input providers p.name ps)
        (λ _. ground (
          arith,
          rest,
          includes-append (depends_on input providers q.name q.inject)
              (waits_of input providers p.name ps) dep,
        ))
        (λ _. rest)

-- Where no key has been claimed twice, a plugin waits for all that its name needs.
pub waits-Needs :
    (input : SortInput) (p : PluginInfo) (dep : String)
    → (providers_of input).duplicates ≡ []
    → Needs input p.name dep
    → includes (waits input (providers_of input).providers p) dep ≡ true
waits-Needs input p dep sound (r, q, key, mr, mq, er, eq, injects, free, provides, differs) =
    let c = providers_of input in
    let start : Claims = record { providers = []; duplicates = [] } in
    let k : claimed key q.name c ≡ true =
      claims-claimed input.allow_override input.gated start q key mq provides in
    let unique : is_none c.duplicates ≡ true = ap is_none sound in
    let provider : includes (or_empty (lookup key c.providers)) q.name ≡ true = ground arith in
    let other : str_eq q.name r.name ≡ false = elim (Bool-cases (str_eq q.name r.name)) [
      | inl same ↦ absurd (differs (sym eq ∙ (eq_iff q.name r.name).0 same ∙ er))
      | inr d ↦ d
    ] in
    let edge =
      depends_on-provider input c.providers r.name q.name key r.inject injects free provider
        other in
    let found = waits_of-Among input c.providers input.gated r q.name mr edge in
    subst (λ d. includes (waits input c.providers p) d ≡ true) eq
      (subst (λ n. includes (waits_of input c.providers n input.gated) q.name ≡ true) er found)
