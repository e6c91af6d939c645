-- ===== src/Authorization/Chain.antt =====
-- What the chain of voters decides.
use agentback.Base.{
  ◌≡◌, ◌≢◌, refl, sym, ap, ◌⊎◌, str_eq, eq_refl, String, Bool, true, false, not, List, [], ◌∷◌,
  ◌++◌, All, any, arith, Bool-cases, inl, inr, eq_iff,
}
use agentback.Authorization.{
  Decision, allow, deny, abstain, AuthorizationContext, AuthorizationMetadata, Authorizer, includes,
  is_empty, effective_roles, default_role_voter, first_decision, run_authorization,
}

-- Which roles a caller has: everyone has `$everyone`; one with a principal has `$authenticated`, and
-- one without has `$unauthenticated`; and the roles of the context.
abbrev pub HasRole : AuthorizationContext → String → Type 0
HasRole ctx role =
    (role ≡ "$everyone")
    ⊎ ((role ≡ "$authenticated") × (ctx.principals ≢ []))
    ⊎ ((role ≡ "$unauthenticated") × (ctx.principals ≡ []))
    ⊎ (includes ctx.roles role ≡ true)

pub record Granted (ctx : AuthorizationContext) (meta : AuthorizationMetadata) : Type 0 where
  pub not_denied : (r : String) → includes meta.denied_roles r ≡ true → ¬ HasRole ctx r
  pub role :
      meta.allowed_roles ≢ []
      → (r : String) × (includes meta.allowed_roles r ≡ true) × HasRole ctx r
  pub scopes : (s : String) → includes meta.scopes s ≡ true → includes ctx.scopes s ≡ true

any-false :
    (p : String → Bool) (xs : List String) (x : String)
    → any p xs ≡ false
    → includes xs x ≡ true
    → p x ≡ false
any-false p [] x h k = absurd (ground arith)
any-false p (y ∷ ys) x h k = ground (arith, any-false p ys x, eq_iff y x)

any-true :
    (p : String → Bool) (xs : List String)
    → any p xs ≡ true
    → (x : String) × (includes xs x ≡ true) × (p x ≡ true)
any-true p [] h = absurd (ground arith)
any-true p (y ∷ ys) h = elim (Bool-cases (p y)) [
  | inl a ↦ (y, ground (arith, eq_iff y y), a)
  | inr a ↦ let (x, i, b) = any-true p ys (ground arith) in (x, ground arith, b)
]

is_empty_lem : (xs : List String) → xs ≢ [] → is_empty xs ≡ false
is_empty_lem [] n = absurd (n refl)
is_empty_lem (x ∷ xs) n = refl

is_empty-true : (xs : List String) → is_empty xs ≡ true → xs ≡ []
is_empty-true [] h = refl
is_empty-true (x ∷ xs) h = absurd (ground arith)

is_empty-false : (xs : List String) → is_empty xs ≡ false → xs ≢ []
is_empty-false [] h = absurd (ground arith)
is_empty-false (x ∷ xs) h = ground arith

includes_cons :
    (x y : String) (xs : List String)
    → includes (x ∷ xs) y ≡ true
    → (y ≡ x) ⊎ (includes xs y ≡ true)
includes_cons x y xs h = elim (Bool-cases (str_eq x y)) [
  | inl same ↦ inl (sym ((eq_iff x y).0 same))
  | inr other ↦ inr (ground arith)
]

includes_head : (x y : String) (xs : List String) → y ≡ x → includes (x ∷ xs) y ≡ true
includes_head x y xs h = rw h (ground (arith, eq_refl x))

includes_tail :
    (x y : String) (xs : List String) → includes xs y ≡ true → includes (x ∷ xs) y ≡ true
includes_tail x y xs h = ground arith

named :
    (ctx : AuthorizationContext) (r first : String)
    → includes (first ∷ "$everyone" ∷ ctx.roles) r ≡ true
    → (r ≡ first → HasRole ctx r)
    → HasRole ctx r
named ctx r first h at = elim (includes_cons first r ("$everyone" ∷ ctx.roles) h) [
  | inl q ↦ at q
  | inr k ↦ elim (includes_cons "$everyone" r ctx.roles k) [
    | inl q ↦ inl q
    | inr m ↦ inr (inr (inr m))
  ]
]

effective_roles-HasRole :
    (ctx : AuthorizationContext) (r : String)
    → includes (effective_roles ctx) r ≡ true
    → HasRole ctx r
unfolding effective_roles
effective_roles-HasRole ctx r h = elim (Bool-cases (is_empty ctx.principals)) [
  | inl p ↦
      named ctx r "$unauthenticated" (ground arith)
        (λ q. inr (inr (inl (q, is_empty-true ctx.principals p))))
  | inr p ↦
      named ctx r "$authenticated" (ground arith)
        (λ q. inr (inl (q, is_empty-false ctx.principals p)))
]

HasRole-effective_roles :
    (ctx : AuthorizationContext) (r : String)
    → HasRole ctx r
    → includes (effective_roles ctx) r ≡ true
unfolding effective_roles
HasRole-effective_roles ctx r (inl q) =
    includes_tail _ r ("$everyone" ∷ ctx.roles) (includes_head "$everyone" r ctx.roles q)
HasRole-effective_roles ctx r (inr (inl (q, n))) =
    rw (is_empty_lem ctx.principals n)
      (includes_head "$authenticated" r ("$everyone" ∷ ctx.roles) q)
HasRole-effective_roles ctx r (inr (inr (inl (q, e)))) =
    rw e (includes_head "$unauthenticated" r ("$everyone" ∷ ctx.roles) q)
HasRole-effective_roles ctx r (inr (inr (inr m))) =
    includes_tail _ r ("$everyone" ∷ ctx.roles) (includes_tail "$everyone" r ctx.roles m)

-- The default voter allows only a caller with none of the denied roles, one of the allowed roles
-- where any is named, and every scope. The roles are those of the context and the pseudo-roles:
-- `$everyone`, and `$authenticated` or `$unauthenticated` by whether there is a principal.
pub default_role_voter-Granted :
    (ctx : AuthorizationContext) (meta : AuthorizationMetadata)
    → default_role_voter ctx meta ≡ allow
    → Granted ctx meta
unfolding default_role_voter
default_role_voter-Granted ctx meta h = record {
  not_denied = λ r k has_role.
      let lacks = any-false (includes (effective_roles ctx)) meta.denied_roles r (ground arith) k in
      let has = HasRole-effective_roles ctx r has_role in ground arith;
  role = λ n.
      let (r, allowed, has) =
        any-true (includes (effective_roles ctx)) meta.allowed_roles
          (ground (arith, is_empty_lem meta.allowed_roles n)) in
      (r, allowed, effective_roles-HasRole ctx r has);
  scopes = λ s k.
      let m : not (includes ctx.scopes s) ≡ false =
        any-false (λ x. not (includes ctx.scopes x)) meta.scopes s (ground arith) k in
      ground arith;
}

-- The voters up to the one that decides, which none before it did.
pub record DecidedBy (ctx : AuthorizationContext) (meta : AuthorizationMetadata)
    (voters : List Authorizer) (d : Decision) : Type 0 where
  pub before : List Authorizer
  pub voter : Authorizer
  pub after : List Authorizer
  pub split : voters ≡ before ++ voter ∷ after
  pub abstained : All (λ v. v ctx meta ≡ abstain) before
  pub decides : voter ctx meta ≡ d

first_decision-DecidedBy :
    (ctx : AuthorizationContext) (meta : AuthorizationMetadata) (voters : List Authorizer)
    → first_decision ctx meta voters ≡ allow
    → DecidedBy ctx meta voters allow
unfolding first_decision
first_decision-DecidedBy ctx meta [] h = absurd (ground arith)
first_decision-DecidedBy ctx meta (v ∷ vs) h =
    by_vote (v ctx meta) refl (λ k. first_decision-DecidedBy ctx meta vs k)
  where
    by_vote :
        (d : Decision)
        → v ctx meta ≡ d
        → (first_decision ctx meta vs ≡ allow → DecidedBy ctx meta vs allow)
        → DecidedBy ctx meta (v ∷ vs) allow
    by_vote allow e rest = record {
      before = [];
      voter = v;
      after = vs;
      split = refl;
      abstained = tt;
      decides = e;
    }
    by_vote deny e rest = absurd (ground arith)
    by_vote abstain e rest =
        let r = rest (ground arith) in
        record {
          before = v ∷ r.before;
          voter = r.voter;
          after = r.after;
          split = ap (λ xs. v ∷ xs) r.split;
          abstained = (e, r.abstained);
          decides = r.decides;
        }

first_decision-abstain :
    (ctx : AuthorizationContext) (meta : AuthorizationMetadata) (voters : List Authorizer)
    → first_decision ctx meta voters ≢ abstain
unfolding first_decision
first_decision-abstain ctx meta [] h = ground arith
first_decision-abstain ctx meta (v ∷ vs) h = ground (arith, first_decision-abstain ctx meta vs)

-- The chain fails closed: it never abstains, and where it allows, one voter of the route, of the
-- application or the default one said so and every voter before it abstained.
pub run_authorization-DecidedBy :
    (ctx : AuthorizationContext) (meta : AuthorizationMetadata) (inline globals : List Authorizer)
    → (run_authorization ctx meta inline globals ≢ abstain)
      × (run_authorization ctx meta inline globals ≡ allow
          → DecidedBy ctx meta (inline ++ globals ++ default_role_voter ∷ []) allow)
unfolding run_authorization
run_authorization-DecidedBy ctx meta inline globals = (
  first_decision-abstain ctx meta (inline ++ globals ++ default_role_voter ∷ []),
  first_decision-DecidedBy ctx meta _,
)
