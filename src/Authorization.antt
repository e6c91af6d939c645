-- ===== src/Authorization.antt =====
-- packages/authorization/src/resolver.ts: the role and scope voter, and the chain of voters. A voter
-- bound by the application is a parameter; `has` of a set of strings is a search of a list.
pub mod Chain
use agentback.Base.{
  ℕ, String, Bool, true, false, not, ◌&&◌, ◌||◌, Option, none, some, List, [], ◌∷◌, ◌++◌, any,
  str_eq, if◌then◌else◌,
}

pub data Decision : Type 0 where
  allow deny abstain : Decision

pub record UserProfile : Type 0 where
  pub security_id : String
  pub roles : Option (List String)
  pub scopes : List String  -- a space-separated string is a list already

-- What the voters here read; the user and the invocation context are passed on only.
pub record AuthorizationContext : Type 0 where
  pub principals : List String
  pub roles : List String
  pub scopes : List String
  pub resource : String

-- What the default voter reads; the voters of the route are an argument of the chain.
pub record AuthorizationMetadata : Type 0 where
  pub allowed_roles : List String  -- a missing list and an empty one are treated alike
  pub denied_roles : List String
  pub scopes : List String

abbrev pub Authorizer : Type 0
Authorizer = AuthorizationContext → AuthorizationMetadata → Decision

abbrev or_empty : Option (List String) → List String
or_empty none = []
or_empty (some roles) = roles

-- buildAuthorizationContext
unfoldable pub build_authorization_context : Option UserProfile → String → AuthorizationContext
build_authorization_context none resource = record {
  principals = [];
  roles = [];
  scopes = [];
  resource = resource;
}
build_authorization_context (some user) resource = record {
  principals = user.security_id ∷ [];
  roles = or_empty user.roles;
  scopes = user.scopes;
  resource = resource;
}

abbrev pub includes : List String → String → Bool
includes xs x = any (λ y. str_eq y x) xs

abbrev pub is_empty : List String → Bool
is_empty [] = true
is_empty (x ∷ xs) = false

unfoldable pub effective_roles : AuthorizationContext → List String
effective_roles ctx =
    (if is_empty ctx.principals then "$unauthenticated" else "$authenticated")
    ∷ "$everyone"
    ∷ ctx.roles

-- defaultRoleVoter
unfoldable pub default_role_voter : Authorizer
default_role_voter ctx meta =
    if any (includes (effective_roles ctx)) meta.denied_roles
    then deny
    else (if not (is_empty meta.allowed_roles)
          && not (any (includes (effective_roles ctx)) meta.allowed_roles)
        then deny
        else (if any (λ s. not (includes ctx.scopes s)) meta.scopes
            then deny
            else (if is_empty meta.allowed_roles
                  && is_empty meta.denied_roles
                  && is_empty meta.scopes
                then abstain
                else allow)))

unfoldable pub first_decision :
    AuthorizationContext → AuthorizationMetadata → List Authorizer → Decision
first_decision ctx meta [] = deny
first_decision ctx meta (v ∷ voters) = elim (v ctx meta) [
  | allow ↦ allow
  | deny ↦ deny
  | abstain ↦ first_decision ctx meta voters
]

-- runAuthorization: the route's voters, the global ones, then the default voter.
unfoldable pub run_authorization :
    AuthorizationContext → AuthorizationMetadata → List Authorizer → List Authorizer → Decision
run_authorization ctx meta inline globals =
    first_decision ctx meta (inline ++ globals ++ default_role_voter ∷ [])
