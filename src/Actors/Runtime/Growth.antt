-- ===== src/Actors/Runtime/Growth.antt =====
-- Journals that only grow: what it means, and what writing one record does.
use agentback.Base.{
  ℕ, ◌≡◌, sym, ap, ◌∙◌, subst, String, none, some, List, [], ◌++◌, str_eq, eq_iff, arith,
  Bool-cases, inl, inr,
}
use mathlib.Core.List.{append-nil, append_assoc}
use agentback.Base.Map.{Map, lookup, insert, lookup-insert}
use agentback.Actors.Types.{CommittedActorEvent}
use agentback.Actors.Store.{StoredActor}
use agentback.Actors.Store.Journal.{IsJournal}

-- Every stored record of the map has a well-formed journal and a bounded dedup map.
abbrev pub AllJournals : ℕ → Map StoredActor → Type 0
AllJournals limit actors =
    (key : String) (s : StoredActor) → lookup key actors ≡ some s → IsJournal limit s

-- Every journal of the one map is there in the other, with more entries at its end at most.
abbrev pub Extends : Map StoredActor → Map StoredActor → Type 0
Extends a b =
    (key : String) (s : StoredActor)
    → lookup key a ≡ some s
    → (t : StoredActor) × (more : List CommittedActorEvent) × (lookup key b ≡ some t)
      × (t.events ≡ s.events ++ more)

pub Extends-refl : (a : Map StoredActor) → Extends a a
Extends-refl a key s h = (s, [], h, sym (append-nil s.events))

pub Extends-trans : (a b c : Map StoredActor) → Extends a b → Extends b c → Extends a c
Extends-trans a b c h k key s p =
    let (t, more, q, e) = h key s p in
    let (u, rest, r, f) = k key t q in
    (u, more ++ rest, r, f ∙ ap (λ es. es ++ rest) e ∙ append_assoc s.events more rest)

-- What a step does to the journals.
pub record Advances (limit : ℕ) (a b : Map StoredActor) : Type 0 where
  pub extends : Extends a b
  pub keeps : AllJournals limit a → AllJournals limit b

pub Advances-refl : (limit : ℕ) (a : Map StoredActor) → Advances limit a a
Advances-refl limit a = record { extends = Extends-refl a; keeps = λ h. h }

pub Advances-trans :
    (limit : ℕ) (a b c : Map StoredActor)
    → Advances limit a b
    → Advances limit b c
    → Advances limit a c
Advances-trans limit a b c h k = record {
  extends = Extends-trans a b c h.extends k.extends;
  keeps = λ v. k.keeps (h.keeps v);
}

-- Writing one record that goes on from the one that stood there.
module _ (limit : ℕ) (actors : Map StoredActor) (key : String) (new : StoredActor) where
  pub insert-Advances :
      ((old : StoredActor)
        → lookup key actors ≡ some old
        → (more : List CommittedActorEvent) × (new.events ≡ old.events ++ more))
      → (AllJournals limit actors → IsJournal limit new)
      → Advances limit actors (insert key new actors)
  insert-Advances grows valid = record {
    extends = λ k s h. elim (Bool-cases (str_eq key k)) [
      | inl p ↦
          let (more, e) = grows s (ground (arith, eq_iff key k)) in
          (new, more, ground (arith, lookup-insert key k new actors), e)
      | inr p ↦ (s, [], ground (arith, lookup-insert key k new actors), sym (append-nil s.events))
    ];
    keeps = λ v k s h. elim (Bool-cases (str_eq key k)) [
      | inl p ↦
          let same : new ≡ s = ground (arith, lookup-insert key k new actors) in
          subst (IsJournal limit) same (valid v)
      | inr p ↦ v k s (ground (arith, lookup-insert key k new actors))
    ];
  }

  -- In the place of a record that is there.
  pub replace-Advances :
      (old : StoredActor)
      → lookup key actors ≡ some old
      → (more : List CommittedActorEvent) → new.events ≡ old.events ++ more
      → (IsJournal limit old → IsJournal limit new)
      → Advances limit actors (insert key new actors)
  replace-Advances old p more e valid =
      insert-Advances
        (λ o q. let same : old ≡ o = ground arith in (more, e ∙ ap (λ s. s.events ++ more) same))
        (λ v. valid (v key old p))

  -- Where there is none.
  pub create-Advances :
      lookup key actors ≡ none → IsJournal limit new → Advances limit actors (insert key new actors)
  create-Advances p valid = insert-Advances (λ o q. absurd (ground arith)) (λ v. valid)
