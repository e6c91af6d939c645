-- ===== src/Actors/Json.antt =====
-- packages/actors/src/in-memory-runtime.ts: the check that what a turn is about to commit is plain,
-- finite JSON (`assertJsonValue`, `assertJsonPortableEvents`).
pub mod Portable
use agentback.Base.{
  ℕ, suc, ◌+◌, String, Bool, Option, none, some, List, [], ◌∷◌, ◌++◌, ltb, if◌then◌else◌,
}

-- A JavaScript value, as far as these functions look at it. `foreign` is undefined, a function, a
-- bigint or a symbol, by its `typeof`; `instance` is an object of another prototype, by its class;
-- a finite number is not looked into.
mutual
  pub data Value : Type 0 where
    null : Value
    string : String → Value
    boolean : Bool → Value
    number : ℕ → Value
    not_finite : Value
    foreign : String → Value
    instance_of : String → Value
    array : Items → Value
    object : Fields → Value

  pub data Items : Type 0 where
    nil : Items
    cons : Value → Items → Items
    hole : Items → Items  -- an index of a sparse array that has no value

  pub data Fields : Type 0 where
    end : Fields
    field : String → Value → Fields → Fields

-- A step of the path that an error names: `[index]` or `.key`. The path runs from the outside in.
pub data Segment : Type 0 where
  index : ℕ → Segment
  key : String → Segment

pub data Reason : Type 0 where
  too_deep is_not_finite : Reason
  is_foreign is_instance : String → Reason

-- NonJsonEventValueError
pub record NonJson : Type 0 where
  pub path : List Segment
  pub reason : Reason

abbrev pub max_event_json_depth : ℕ
max_event_json_depth = 64

abbrev pub reject : List Segment → Reason → Option NonJson
reject path reason = some (record { path = path; reason = reason })

-- The first rejection wins, as `forEach` and `for … of` go through the children in order.
abbrev pub or_else : Option NonJson → Option NonJson → Option NonJson
or_else (some e) later = some e
or_else none later = later

abbrev within : ℕ → List Segment → Option NonJson → Option NonJson
within depth path inside = if ltb max_event_json_depth depth then reject path too_deep else inside

-- `none` is the normal return.
unfoldable mutual
  pub assert_json_value : Value → List Segment → ℕ → Option NonJson
  assert_json_value null path depth = within depth path none
  assert_json_value (string s) path depth = within depth path none
  assert_json_value (boolean b) path depth = within depth path none
  assert_json_value (number n) path depth = within depth path none
  assert_json_value not_finite path depth = within depth path (reject path is_not_finite)
  assert_json_value (foreign type) path depth = within depth path (reject path (is_foreign type))
  assert_json_value (instance_of name) path depth =
      within depth path (reject path (is_instance name))
  assert_json_value (array items) path depth =
      within depth path (assert_items items path 0 (depth + 1))
  assert_json_value (object fields) path depth =
      within depth path (assert_fields fields path (depth + 1))

  pub assert_items : Items → List Segment → ℕ → ℕ → Option NonJson
  assert_items nil path i depth = none
  assert_items (hole items) path i depth = assert_items items path (suc i) depth  -- `forEach` skips it
  assert_items (cons v items) path i depth =
      or_else (assert_json_value v (path ++ index i ∷ []) depth)
        (assert_items items path (suc i) depth)

  pub assert_fields : Fields → List Segment → ℕ → Option NonJson
  assert_fields end path depth = none
  assert_fields (field k v fields) path depth =
      or_else (assert_json_value v (path ++ key k ∷ []) depth) (assert_fields fields path depth)

-- `events?.forEach(...)`; no events at all is the empty list.
unfoldable pub assert_events_from : List Value → ℕ → Option NonJson
assert_events_from [] i = none
assert_events_from (event ∷ events) i =
    or_else (assert_json_value event (index i ∷ []) 0) (assert_events_from events (suc i))

unfoldable pub assert_json_portable_events : List Value → Option NonJson
unfolding assert_events_from
assert_json_portable_events events = assert_events_from events 0
