-- ===== src/Injection/Scopes.antt =====
-- packages/context/src/context.ts and binding.ts: which context a binding is resolved in. A context
-- is the list of itself and its ancestors.
use agentback.Base.{
  ℕ, String, Bool, true, false, not, Option, none, some, List, [], ◌∷◌, ◌==◌, if◌then◌else◌, Result,
  ok, err,
}
use agentback.Base.Map.{Map, lookup, has}
use agentback.Injection.Session.{Failure, no_scope, not_visible}

pub data BindingScope : Type 0 where
  transient context singleton application server request : BindingScope

-- A context's own part: its number, its scope and its registry, which names bindings by number.
pub record Frame : Type 0 where
  pub id : ℕ
  pub scope : BindingScope
  pub registry : Map ℕ

abbrev pub Context : Type 0
Context = List Frame

-- Enum equality.
abbrev same_scope : BindingScope → BindingScope → Bool
same_scope transient transient = true
same_scope context context = true
same_scope singleton singleton = true
same_scope application application = true
same_scope server server = true
same_scope request request = true
same_scope _ _ = false

-- getBinding; `none` where it throws or, for an optional one, returns undefined.
unfoldable pub get_binding : String → Context → Option ℕ
get_binding key [] = none
get_binding key (frame ∷ parents) = elim (lookup key frame.registry) [
  | some b ↦ some b
  | none ↦ get_binding key parents
]

-- getOwnerContext, of a key
unfoldable pub get_owner_context : String → Context → Option Context
get_owner_context key [] = none
get_owner_context key (frame ∷ parents) =
    let above = get_owner_context key parents in
    if has key frame.registry then some (frame ∷ parents) else above

-- getScopedContext
unfoldable pub get_scoped_context : BindingScope → Context → Option Context
get_scoped_context scope [] = none
get_scoped_context scope (frame ∷ parents) =
    let above = get_scoped_context scope parents in
    if same_scope frame.scope scope then some (frame ∷ parents) else above

abbrev pub or_this : Context → Option Context → Option Context
or_this ctx none = some ctx
or_this ctx (some found) = some found

-- getResolutionContext, of `Context`
unfoldable pub get_resolution_context : BindingScope → String → Context → Option Context
unfolding get_owner_context get_scoped_context
get_resolution_context singleton key ctx = get_owner_context key ctx
get_resolution_context transient key ctx = some ctx
get_resolution_context context key ctx = some ctx
get_resolution_context request key ctx = or_this ctx (get_scoped_context request ctx)
get_resolution_context application key ctx = get_scoped_context application ctx
get_resolution_context server key ctx = get_scoped_context server ctx

abbrev stands_in : ℕ → Context → Bool
stands_in id [] = false
stands_in id (frame ∷ parents) =
    let above = stands_in id parents in if frame.id == id then true else above

-- isVisibleTo
abbrev pub is_visible_to : Context → Context → Bool
is_visible_to [] ctx = false
is_visible_to (frame ∷ parents) ctx = stands_in frame.id ctx

abbrev pub is_scoped : BindingScope → Bool
is_scoped application = true
is_scoped server = true
is_scoped request = true
is_scoped _ = false

abbrev pub refuse : Bool → Failure → Result Failure (Option Context)
refuse true failure = ok none
refuse false failure = err failure

abbrev pub check_visible : Bool → ℕ → Option Context → Context → Result Failure (Option Context)
check_visible optional b none found = ok (some found)
check_visible optional b (some owner) found =
    if not (is_visible_to owner found) then refuse optional (not_visible b) else ok (some found)

abbrev pub located :
    BindingScope → ℕ → Bool → Option Context → Option Context → Result Failure (Option Context)
located scope b optional owner none =
    if is_scoped scope then refuse optional (no_scope b) else ok none
located scope b optional owner (some found) = check_visible optional b owner found

-- getResolutionContext, of `Binding`: `ok none` is undefined.
unfoldable pub resolution_context :
    BindingScope → ℕ → String → Bool → Context → Result Failure (Option Context)
unfolding get_resolution_context get_owner_context
resolution_context scope b key optional ctx =
    located scope b optional (get_owner_context key ctx) (get_resolution_context scope key ctx)
