-- ===== src/Tests/Access.antt =====
-- Runs of the voters, and of the subscription store.
use agentback.Base.{◌≡◌, ◌≢◌, refl, false, some, List, [], ◌∷◌, ◌++◌}
use agentback.Authorization.{
  allow, abstain, AuthorizationContext, AuthorizationMetadata, Authorizer, default_role_voter,
  run_authorization, effective_roles,
}
use agentback.Authorization.Chain.{
  Granted, DecidedBy, default_role_voter-Granted, run_authorization-DecidedBy,
}
use agentback.Subscriptions.{EventsConfig, EventSubscription}
use agentback.Subscriptions.Lease.{Op, puts, gets, deletes}

abbrev admin : AuthorizationContext
admin = record {
  principals = "u1" ∷ [];
  roles = "admin" ∷ [];
  scopes = "read" ∷ "write" ∷ [];
  resource = "Orders.cancel";
}

abbrev admins_only : AuthorizationMetadata
admins_only = record {
  allowed_roles = "admin" ∷ [];
  denied_roles = "$unauthenticated" ∷ [];
  scopes = "write" ∷ [];
}

abbrev bystander : Authorizer
bystander ctx meta = abstain

default_role_voter-Granted_example : Granted admin admins_only
unfolding default_role_voter effective_roles
default_role_voter-Granted_example = default_role_voter-Granted admin admins_only refl

run_authorization-DecidedBy_example :
    (run_authorization admin admins_only (bystander ∷ []) [] ≢ abstain)
    × (run_authorization admin admins_only (bystander ∷ []) [] ≡ allow
        → DecidedBy admin admins_only ((bystander ∷ []) ++ [] ++ default_role_voter ∷ []) allow)
run_authorization-DecidedBy_example =
    run_authorization-DecidedBy admin admins_only (bystander ∷ []) []

abbrev config : EventsConfig
config = record {
  default_ttl_ms = 3600;
  min_ttl_ms = 60;
  max_ttl_ms = 86400;
  allow_no_expiry = false;
}

-- A subscription that lapses at 2000.
abbrev orders : EventSubscription
orders = record { id = "s1"; principal = "u1"; name = "orders.created"; expires_at = some 2000 }

-- It is put, read, replaced by itself after another one is deleted, and has lapsed when it is read.
abbrev asked : List Op
asked =
    puts 1000 orders ∷ gets 1500 "s1" ∷ deletes 1600 "s2" ∷ puts 1700 orders ∷ gets 2100 "s1" ∷ []
