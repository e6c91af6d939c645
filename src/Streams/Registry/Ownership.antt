-- ===== src/Streams/Registry/Ownership.antt =====
-- Who may rejoin a stream of the registry.
use agentback.Base.{
  ℕ, ◌+◌, ◌≡◌, refl, sym, ap, subst, ◌∙◌, String, true, false, Option, none, some, List, [], ◌∷◌,
  str_eq, eq_iff, eq_refl, ◌≢◌, ◌⊎◌, inl, inr, Bool-cases, length, leb, ◌++◌, get_elem?, arith,
  if_rule, if◌then◌else◌, Result, ok, err,
}
use agentback.Base.Map.{Map, lookup, insert, erase, lookup-insert, lookup-erase}
use agentback.Streams.Stream.{Transport, open_stream, can_resume, Event, stops, step}
use agentback.Streams.Registry.{
  StreamScope, Live, Slot, claimed, opened, released, Registry, new_registry, reserve, release_held,
  release, create_in, create, advance_found, advance, dispose_each, same_owner, same_scope, Refused,
  resume_refused, rejoin, resume, Move, reserves, creates, releases, advances, stops_all, or_full,
  move, run,
}

-- What stands under an id, if anything does, belongs to a scope.
abbrev pub Belongs : StreamScope → Option Live → Type 0
Belongs scope none = Unit {0}
Belongs scope (some live) = live.scope ≡ scope

-- What a stream that is found answers to its owner.
abbrev pub reached : Option Live → ℕ → Result Refused (Option (Live × ℕ))
reached none seq = err resume_refused
reached (some live) seq =
    if can_resume live.stream seq then ok (some (live, seq)) else err resume_refused

same_owner-eq : (a b : Option String) → same_owner a b ≡ true → a ≡ b
same_owner-eq none none h = refl
same_owner-eq none (some b) h = absurd (ground arith)
same_owner-eq (some a) none h = absurd (ground arith)
same_owner-eq (some a) (some b) h = ap some ((eq_iff a b).0 h)

same_owner_refl : (a : Option String) → same_owner a a ≡ true
same_owner_refl none = refl
same_owner_refl (some a) = eq_refl a

scope_eq :
    (a b : StreamScope)
    → a.ctor ≡ b.ctor
    → a.method_name ≡ b.method_name
    → a.owner ≡ b.owner
    → a ≡ b
scope_eq a b p q r i = record { ctor = p i; method_name = q i; owner = r i }

same_scope-eq : (a b : StreamScope) → same_scope a b ≡ true → a ≡ b
same_scope-eq a b h =
    scope_eq a b (ground arith) ((eq_iff a.method_name b.method_name).0 (ground arith))
      (same_owner-eq a.owner b.owner (ground arith))

same_scope_refl : (a b : StreamScope) → a ≡ b → same_scope a b ≡ true
same_scope_refl a b h =
    subst (λ c. same_scope a c ≡ true) h
      (ground (arith, eq_refl a.method_name, same_owner_refl a.owner))

-- A move creates no stream under the id for another scope.
abbrev pub CreatesFor : String → StreamScope → Move → Type 0
CreatesFor id scope (creates i other asked max_events) = other ≡ id → asked ≡ scope
CreatesFor id scope reserves = Unit {0}
CreatesFor id scope (releases i) = Unit {0}
CreatesFor id scope (advances other e) = Unit {0}
CreatesFor id scope stops_all = Unit {0}

abbrev pub EachCreatesFor : String → StreamScope → List Move → Type 0
EachCreatesFor id scope [] = Unit {0}
EachCreatesFor id scope (m ∷ moves) = CreatesFor id scope m × EachCreatesFor id scope moves

module _ (id : String) (scope : StreamScope) where
  insert-Belongs :
      (other : String) (live : Live) (streams : Map Live)
      → Belongs scope (lookup id streams)
      → (other ≡ id → live.scope ≡ scope)
      → Belongs scope (lookup id (insert other live streams))
  insert-Belongs other live streams v h = rw (lookup-insert other id live streams) (
      if_rule (Belongs scope) (str_eq other id) (some live) (lookup id streams)
        (λ same. h ((eq_iff other id).0 same)) (λ _. v))

  erase-Belongs :
      (other : String) (streams : Map Live)
      → Belongs scope (lookup id streams)
      → Belongs scope (lookup id (erase other streams))
  erase-Belongs other streams v =
      rw (lookup-erase other id streams)
        (if_rule (Belongs scope) (str_eq other id) none (lookup id streams) (λ _. tt) (λ _. v))

  -- The stream that something happens to keeps its scope.
  found_scope :
      (streams : Map Live) (other : String) (live : Live)
      → lookup other streams ≡ some live
      → Belongs scope (lookup id streams)
      → other ≡ id
      → live.scope ≡ scope
  found_scope streams other live found v same =
      subst (Belongs scope) (sym (ap (λ k. lookup k streams) same) ∙ found) v

  module _ (takes : Transport) where
    advance_found-Belongs :
        (e : Event) (other : String) (streams : Map Live) (found : Option Live)
        → lookup other streams ≡ found
        → Belongs scope (lookup id streams)
        → Belongs scope (lookup id (advance_found takes e other streams found))
    advance_found-Belongs e other streams none h v = v
    advance_found-Belongs e other streams (some live) h v =
        let s = step takes live.stream e in
        let next : Live = record { scope = live.scope; stream = s } in
        if_rule (λ m. Belongs scope (lookup id m)) s.disposed (erase other streams)
          (insert other next streams) (λ _. erase-Belongs other streams v)
          (λ _. insert-Belongs other next streams v (found_scope streams other live h v))

    advance-Belongs :
        (e : Event) (other : String) (streams : Map Live)
        → Belongs scope (lookup id streams)
        → Belongs scope (lookup id (advance takes e other streams))
    unfolding advance
    advance-Belongs e other streams v =
        advance_found-Belongs e other streams (lookup other streams) refl v

    dispose_each-Belongs :
        (entries streams : Map Live)
        → Belongs scope (lookup id streams)
        → Belongs scope (lookup id (dispose_each takes entries streams))
    unfolding dispose_each
    dispose_each-Belongs [] streams v = v
    dispose_each-Belongs ((other, live) ∷ entries) streams v =
        dispose_each-Belongs entries (advance takes stops other streams)
          (advance-Belongs stops other streams v)

  release_held-Belongs :
      (r : Registry) (i : ℕ) (s : Option Slot)
      → Belongs scope (lookup id r.streams)
      → Belongs scope (lookup id (release_held r i s).streams)
  release_held-Belongs r i none v = v
  release_held-Belongs r i (some released) v = v
  release_held-Belongs r i (some claimed) v = v
  release_held-Belongs r i (some opened) v = v

  create_in-Belongs :
      (r : Registry) (i : ℕ) (other : String) (asked : StreamScope) (max_events : ℕ)
      (s : Option Slot)
      → (other ≡ id → asked ≡ scope)
      → Belongs scope (lookup id r.streams)
      → Belongs scope (lookup id (create_in r i other asked max_events s).streams)
  unfolding create
  create_in-Belongs r i other asked max_events none h v = v
  create_in-Belongs r i other asked max_events (some released) h v = v
  create_in-Belongs r i other asked max_events (some opened) h v = v
  create_in-Belongs r i other asked max_events (some claimed) h v =
      insert-Belongs other (record { scope = asked; stream = open_stream max_events }) r.streams v h

  reserve-Belongs :
      (r : Registry)
      → Belongs scope (lookup id r.streams)
      → Belongs scope (lookup id (or_full r (reserve r)).streams)
  unfolding reserve
  reserve-Belongs r v =
      if_rule (λ s. Belongs scope (lookup id (or_full r s).streams))
        (leb r.max_live_streams (length r.streams + r.reserved)) none
        (some (record r { reserved = r.reserved + 1; slots = r.slots ++ claimed ∷ [] })) (λ _. v)
        (λ _. v)

  module _ (takes : Transport) where
    move-Belongs :
        (r : Registry) (m : Move)
        → CreatesFor id scope m
        → Belongs scope (lookup id r.streams)
        → Belongs scope (lookup id (move takes r m).streams)
    unfolding move create release
    move-Belongs r reserves h v = reserve-Belongs r v
    move-Belongs r (creates i other asked max_events) h v =
        create_in-Belongs r i other asked max_events (get_elem? r.slots i) h v
    move-Belongs r (releases i) h v = release_held-Belongs r i (get_elem? r.slots i) v
    move-Belongs r (advances other e) h v = advance-Belongs takes e other r.streams v
    move-Belongs r stops_all h v = dispose_each-Belongs takes r.streams r.streams v

    run-Belongs :
        (moves : List Move) (r : Registry)
        → EachCreatesFor id scope moves
        → Belongs scope (lookup id r.streams)
        → Belongs scope (lookup id (run takes r moves).streams)
    unfolding run
    run-Belongs [] r h v = v
    run-Belongs (m ∷ moves) r h v = run-Belongs moves (move takes r m) h.1 (move-Belongs r m h.0 v)

  -- What an asker is answered: another one is refused, the owner gets what is reached.
  abbrev pub Answered : StreamScope → Option Live → ℕ → Result Refused (Option (Live × ℕ)) → Type 0
  Answered asker found seq answer =
      ((asker ≢ scope) × (answer ≡ err resume_refused))
      ⊎ ((asker ≡ scope) × (answer ≡ reached found seq))

  rejoin-owned :
      (found : Option Live) (seq : ℕ) (asker : StreamScope)
      → Belongs scope found
      → Answered asker found seq (rejoin found seq asker)
  rejoin-owned none seq asker v = elim (Bool-cases (same_scope scope asker)) [
    | inl same ↦ inr (sym (same_scope-eq scope asker same), refl)
    | inr other ↦ inl (differs other, refl)
  ]
    where
      differs : same_scope scope asker ≡ false → asker ≢ scope
      differs other e = let same = same_scope_refl scope asker (sym e) in absurd (ground arith)
  rejoin-owned (some live) seq asker v = elim (Bool-cases (same_scope live.scope asker)) [
    | inl same ↦ inr (sym (same_scope-eq live.scope asker same) ∙ v, ground (arith, same))
    | inr other ↦ inl (differs other, ground (arith, other))
  ]
    where
      differs : same_scope live.scope asker ≡ false → asker ≢ scope
      differs other e =
          let same = same_scope_refl live.scope asker (v ∙ sym e) in absurd (ground arith)

  -- A stream whose id is created for one route and principal only: whatever requests and streams do,
  -- an asker with another controller, method or principal is refused at every position; and an asker
  -- with the same three gets the stream exactly where it is there, not disposed of, and reaches back
  -- to the position, and is refused elsewhere.
  pub run-owned :
      (takes : Transport) (max_streams : ℕ) (moves : List Move)
      → EachCreatesFor id scope moves
      → (seq : ℕ) (asker : StreamScope)
      → let r = run takes (new_registry max_streams) moves in
        Answered asker (lookup id r.streams) seq (resume r (some (id, seq)) asker)
  unfolding resume lookup
  run-owned takes max_streams moves h seq asker =
      let r = run takes (new_registry max_streams) moves in
      rejoin-owned (lookup id r.streams) seq asker
        (run-Belongs takes moves (new_registry max_streams) h tt)
