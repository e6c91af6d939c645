-- ===== src/Actors/Identity.antt =====
-- The address of an actor: `assertActorIdentityPart` of packages/actors/src/types.ts, and `actorKey`
-- of packages/actors/src/event-sourced-runtime.ts. The blanks that `trim` strips are JavaScript's:
-- `trim` is a parameter.
use Prim.Native.Char.{Char, code}
use Prim.Native.String
use text.Mathlib.TextLemmas.{nil-append, cons-append}
use agentback.Base.{
  String, Bool, true, false, ◌||◌, ltb, str_eq, if◌then◌else◌, Result, ok, err, ◌≡◌, refl, arith,
  ap, ◌∙◌, sym,
}
use agentback.Actors.Types.{ActorId}

pub data IdentityError : Type 0 where
  blank control : IdentityError

-- /[\u0000-\u001F]/
unfoldable pub has_control : String → Bool
has_control String.[] = false
has_control (String.◌∷◌ c s) = ltb (code c) 32 || has_control s

unfoldable pub assert_actor_identity_part :
    (String → String) → String → Result IdentityError (Unit {0})
assert_actor_identity_part trim value =
    if str_eq (trim value) "" then err blank else if has_control value then err control else ok tt

unfoldable pub actor_key : ActorId → String
actor_key actor = String.◌++◌ actor.type (String.◌++◌ "\0" actor.id)

abbrev nul : Char
nul = "\0"

not_nul :
    (c : Char) (s rest x : String)
    → has_control (String.◌∷◌ c s) ≡ false
    → String.◌∷◌ nul x ≡ String.◌∷◌ c rest
    → ⊥
unfolding has_control
not_nul c s rest x h e =
    let same : c ≡ nul = cc in let low : ltb (code c) 32 ≡ true = rw same refl in ground arith

-- A separator that occurs in neither left part marks where the left part ends.
cut :
    (s t x y : String)
    → has_control s ≡ false
    → has_control t ≡ false
    → String.◌++◌ s (String.◌∷◌ nul x) ≡ String.◌++◌ t (String.◌∷◌ nul y)
    → (s ≡ t) × (x ≡ y)
unfolding has_control
cut String.[] String.[] x y hs ht e =
    (refl, ground (arith, nil-append (String.◌∷◌ nul x), nil-append (String.◌∷◌ nul y)))
cut String.[] (String.◌∷◌ d t) x y hs ht e = absurd (
    not_nul d t _ x ht
      (sym (nil-append (String.◌∷◌ nul x)) ∙ e ∙ cons-append d t (String.◌∷◌ nul y)))
cut (String.◌∷◌ c s) String.[] x y hs ht e = absurd (
    not_nul c s _ y hs
      (sym (nil-append (String.◌∷◌ nul y)) ∙ sym e ∙ cons-append c s (String.◌∷◌ nul x)))
cut (String.◌∷◌ c s) (String.◌∷◌ d t) x y hs ht e =
    ground
      (arith, cons-append c s (String.◌∷◌ nul x), cons-append d t (String.◌∷◌ nul y), cut s t x y)

-- Two identities whose types passed the check have different keys unless they are the same: no
-- actor's state, dedup map or journal is reached under another's address.
pub actor_key-injective :
    (trim : String → String) (a b : ActorId)
    → assert_actor_identity_part trim a.type ≡ ok tt
    → assert_actor_identity_part trim b.type ≡ ok tt
    → actor_key a ≡ actor_key b
    → a ≡ b
unfolding actor_key assert_actor_identity_part
actor_key-injective trim a b ha hb e =
    let sep = λ (s : String). cons-append nul String.[] s ∙ ap (String.◌∷◌ nul) (nil-append s) in
    let parts =
      cut a.type b.type a.id b.id (ground arith) (ground arith)
        (ap (String.◌++◌ a.type) (sym (sep a.id)) ∙ e ∙ ap (String.◌++◌ b.type) (sep b.id)) in
    ground (arith, parts)
