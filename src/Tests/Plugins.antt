-- ===== src/Tests/Plugins.antt =====
-- Runs of the plugin graph.
use agentback.Base.{◌≡◌, refl, true, [], ◌∷◌, String, arith, any, All, str_eq}
use agentback.Base.Map.{has, insert, lookup, erase}
use agentback.Plugins.Graph.{
  PluginInfo, SortInput, sort_by_graph, claims, claim_all, claim, all_unsatisfied, unsatisfied,
  is_ready, depends_on, waits_of, remaining_of, kahn, before,
}
use agentback.Plugins.Graph.Kahn.{mounted, kahn-stuck}
use agentback.Plugins.Graph.Keys.{IsNamed}
use agentback.Plugins.Graph.Order.{AfterNeeds, sort_by_graph-AfterNeeds}

abbrev web : PluginInfo
web = record { name = "web"; provides = []; inject = "db" ∷ [] }

abbrev db : PluginInfo
db = record { name = "db"; provides = "db" ∷ []; inject = [] }

abbrev input : SortInput
input = record {
  gated = web ∷ db ∷ [];
  skipped = [];
  app_owned_keys = [];
  order = "web" ∷ [];
  allow_override = [];
}

sort_by_graph-AfterNeeds_example :
    AfterNeeds input (("db", db) ∷ ("web", web) ∷ [])
    × All IsNamed (("db", db) ∷ ("web", web) ∷ [])
    × ((name : String)
        → mounted name (("db", db) ∷ ("web", web) ∷ []) ≡ any (λ p. str_eq p.name name) input.gated)
unfolding sort_by_graph claims claim_all claim lookup all_unsatisfied unsatisfied has insert kahn
    is_ready depends_on waits_of erase
sort_by_graph-AfterNeeds_example =
    sort_by_graph-AfterNeeds input (("db", db) ∷ ("web", web) ∷ []) refl

-- It is named after the plugin that injects it, and injects that plugin.
abbrev web2 : PluginInfo
web2 = record { name = "db"; provides = []; inject = "web" ∷ [] }

kahn-stuck_example :
    let left = (kahn (λ p. p.inject) (before [] []) 2 (remaining_of (web ∷ web2 ∷ []) [])).1 in
    All (λ e. any (λ d. has d left) e.1.inject ≡ true) left
unfolding insert
kahn-stuck_example =
    kahn-stuck (λ p. p.inject) (before [] []) 2 (remaining_of (web ∷ web2 ∷ []) []) (omega arith)
