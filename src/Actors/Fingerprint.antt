-- ===== src/Actors/Fingerprint.antt =====
-- `actorCommandFingerprint` of packages/actors/src/in-memory-runtime.ts: a command as canonical JSON
-- text. The order of texts (localeCompare) and JSON.stringify are JavaScript's, and are parameters.
-- Object.fromEntries is taken to keep the order of the entries, which it does for keys that are no
-- array indices.
use agentback.Base.{String, Bool, if◌then◌else◌, Result, ok, err, ◌>>=◌}
use agentback.Actors.Json.{
  Value, null, string, boolean, number, not_finite, foreign, instance_of, array, object, Items, nil,
  cons, hole, Fields, end, field,
}
use agentback.Actors.Types.{ActorError, command_not_finite, command_not_json}

module _ (locale_le : String → String → Bool) where
  -- `sort` by localeCompare is stable: an entry goes before the first one that it does not exceed.
  pub insert_field : String → Value → Fields → Fields
  insert_field k v end = field k v end
  insert_field k v (field j w fields) =
      if locale_le k j then field k v (field j w fields) else field j w (insert_field k v fields)

  mutual
    pub canonicalize : Value → Result ActorError Value
    canonicalize null = ok null
    canonicalize (string s) = ok (string s)
    canonicalize (boolean b) = ok (boolean b)
    canonicalize (number n) = ok (number n)
    canonicalize not_finite = err command_not_finite
    canonicalize (foreign type) = err command_not_json
    canonicalize (instance_of name) = err command_not_json
    canonicalize (array items) = canonicalize_items items >>= λ xs. ok (array xs)
    canonicalize (object fields) = canonicalize_fields fields >>= λ fs. ok (object fs)

    canonicalize_items : Items → Result ActorError Items
    canonicalize_items nil = ok nil
    canonicalize_items (hole items) = canonicalize_items items >>= λ xs. ok (hole xs)
    canonicalize_items (cons v items) =
        canonicalize v >>= λ w. canonicalize_items items >>= λ xs. ok (cons w xs)

    canonicalize_fields : Fields → Result ActorError Fields
    canonicalize_fields end = ok end
    canonicalize_fields (field k v fields) =
        canonicalize v >>= λ w. canonicalize_fields fields >>= λ fs. ok (insert_field k w fs)

  unfoldable pub actor_command_fingerprint : (Value → String) → Value → Result ActorError String
  unfolding canonicalize canonicalize_items canonicalize_fields insert_field
  actor_command_fingerprint stringify value = canonicalize value >>= λ v. ok (stringify v)
