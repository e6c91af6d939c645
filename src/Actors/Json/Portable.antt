-- ===== src/Actors/Json/Portable.antt =====
-- Which events the check accepts.
use agentback.Base.{ℕ, suc, ◌+◌, ◌≤◌, ◌≡◌, refl, ◌↔◌, none, List, [], ◌∷◌, ◌++◌, max, arith, All}
use agentback.Actors.Json.{
  Value, null, string, boolean, number, not_finite, foreign, instance_of, array, object, Items, nil,
  cons, hole, Fields, end, field, Segment, index, key, assert_json_value, assert_items,
  assert_fields, assert_events_from, assert_json_portable_events,
}

-- Plain, finite JSON, except that an array may have holes: they are not looked at.
mutual
  pub IsJson : Value → Type 0
  IsJson null = Unit
  IsJson (string s) = Unit
  IsJson (boolean b) = Unit
  IsJson (number n) = Unit
  IsJson not_finite = ⊥
  IsJson (foreign type) = ⊥
  IsJson (instance_of name) = ⊥
  IsJson (array items) = AreJson items
  IsJson (object fields) = HaveJson fields

  pub AreJson : Items → Type 0
  AreJson nil = Unit
  AreJson (hole items) = AreJson items
  AreJson (cons v items) = IsJson v × AreJson items

  pub HaveJson : Fields → Type 0
  HaveJson end = Unit
  HaveJson (field k v fields) = IsJson v × HaveJson fields

-- How deep a value is nested: nothing for a value that holds no other.
mutual
  pub nesting : Value → ℕ
  nesting null = 0
  nesting (string s) = 0
  nesting (boolean b) = 0
  nesting (number n) = 0
  nesting not_finite = 0
  nesting (foreign type) = 0
  nesting (instance_of name) = 0
  nesting (array items) = nesting_items items
  nesting (object fields) = nesting_fields fields

  pub nesting_items : Items → ℕ
  nesting_items nil = 0
  nesting_items (hole items) = nesting_items items
  nesting_items (cons v items) = max (nesting v + 1) (nesting_items items)

  pub nesting_fields : Fields → ℕ
  nesting_fields end = 0
  nesting_fields (field k v fields) = max (nesting v + 1) (nesting_fields fields)

mutual
  unfolding assert_json_value assert_items assert_fields IsJson AreJson HaveJson nesting
      nesting_items nesting_fields

  sound :
      (v : Value) (path : List Segment) (depth : ℕ)
      → assert_json_value v path depth ≡ none
      → IsJson v × (depth + nesting v ≤ 64)
  sound null path depth h = ground arith
  sound (string s) path depth h = ground arith
  sound (boolean b) path depth h = ground arith
  sound (number n) path depth h = ground arith
  sound not_finite path depth h = ground arith
  sound (foreign type) path depth h = ground arith
  sound (instance_of name) path depth h = ground arith
  sound (array items) path depth h = ground (arith, sound_items items path 0 depth)
  sound (object fields) path depth h = ground (arith, sound_fields fields path depth)

  sound_items :
      (items : Items) (path : List Segment) (i depth : ℕ)
      → depth ≤ 64
      → assert_items items path i (depth + 1) ≡ none
      → AreJson items × (depth + nesting_items items ≤ 64)
  sound_items nil path i depth b h = ground arith
  sound_items (hole items) path i depth b h = sound_items items path (suc i) depth b h
  sound_items (cons v items) path i depth b h =
      ground
        (arith, sound v (path ++ index i ∷ []) (depth + 1), sound_items items path (suc i) depth)

  sound_fields :
      (fields : Fields) (path : List Segment) (depth : ℕ)
      → depth ≤ 64
      → assert_fields fields path (depth + 1) ≡ none
      → HaveJson fields × (depth + nesting_fields fields ≤ 64)
  sound_fields end path depth b h = ground arith
  sound_fields (field k v fields) path depth b h =
      ground (arith, sound v (path ++ key k ∷ []) (depth + 1), sound_fields fields path depth)

mutual
  unfolding assert_json_value assert_items assert_fields IsJson AreJson HaveJson nesting
      nesting_items nesting_fields

  complete :
      (v : Value) (path : List Segment) (depth : ℕ)
      → IsJson v
      → depth + nesting v ≤ 64
      → assert_json_value v path depth ≡ none
  complete null path depth j h = ground arith
  complete (string s) path depth j h = ground arith
  complete (boolean b) path depth j h = ground arith
  complete (number n) path depth j h = ground arith
  complete not_finite path depth j h = absurd j
  complete (foreign type) path depth j h = absurd j
  complete (instance_of name) path depth j h = absurd j
  complete (array items) path depth j h = ground (arith, complete_items items path 0 depth j h)
  complete (object fields) path depth j h = ground (arith, complete_fields fields path depth j h)

  complete_items :
      (items : Items) (path : List Segment) (i depth : ℕ)
      → AreJson items
      → depth + nesting_items items ≤ 64
      → assert_items items path i (depth + 1) ≡ none
  complete_items nil path i depth j h = refl
  complete_items (hole items) path i depth j h = complete_items items path (suc i) depth j h
  complete_items (cons v items) path i depth j h = ground (
    arith,
    complete v (path ++ index i ∷ []) (depth + 1) j.0,
    complete_items items path (suc i) depth j.1,
  )

  complete_fields :
      (fields : Fields) (path : List Segment) (depth : ℕ)
      → HaveJson fields
      → depth + nesting_fields fields ≤ 64
      → assert_fields fields path (depth + 1) ≡ none
  complete_fields end path depth j h = refl
  complete_fields (field k v fields) path depth j h = ground (
    arith,
    complete v (path ++ key k ∷ []) (depth + 1) j.0,
    complete_fields fields path depth j.1,
  )

-- Plain JSON, or JSON with holes in its arrays, nested at most 64 deep.
abbrev pub IsPortable : Value → Type 0
IsPortable v = IsJson v × (nesting v ≤ 64)

events_from_iff :
    (events : List Value) (i : ℕ) → (assert_events_from events i ≡ none) ↔ All IsPortable events
unfolding assert_events_from
events_from_iff [] i = ((λ h. tt), λ h. refl)
events_from_iff (v ∷ events) i =
    let rest = events_from_iff events (suc i) in
    (
      (λ h.
          let s = sound v (index i ∷ []) 0 (ground arith) in
          ((s.0, omega (arith, s.1)), rest.0 (ground arith))),
      (λ h. ground (arith, complete v (index i ∷ []) 0 h.0.0, rest.1 h.1)),
    )

-- Events are accepted exactly when each of them is plain, finite JSON nested at most 64 deep, holes
-- in its arrays left aside: a sparse array is accepted when the values that it has are.
pub assert_json_portable_events_iff :
    (events : List Value) → (assert_json_portable_events events ≡ none) ↔ All IsPortable events
unfolding assert_json_portable_events
assert_json_portable_events_iff events = events_from_iff events 0
