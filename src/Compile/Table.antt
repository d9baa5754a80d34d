-- ===== src/Compile/Table.antt =====
-- src/ir/compile.rs: `CompiledRouteTable`, its compilation from the hosts of a `RouteTable` and the
-- choice of a host node for a request. `iter` is the iteration order of the maps of counts.
pub mod Stored
pub mod HostNodes
pub mod Routing
use proxy.Common.{
  ℕ, ◌+◌, Bool, true, false, ◌&&◌, ◌||◌, Option, none, some, List, [], ◌∷◌, ◌++◌, length, any, find,
  filter, filter_map, max_of, is_some_and, if◌then◌else◌, ◌==◌, ltb,
}
use proxy.Common.Text.{Str, is_empty}
use proxy.Common.HashMap.{entry_push, bucket}
use proxy.Common.Sort.{sort_by}
use proxy.Ir.{HostnameMatch, HostRoute, RouteTable}
use proxy.Compile.Types.{
  ArcPlan, NodePlans, PathTrieNode, Children, trie_node, no_child, child, HostNode,
  CompiledRouteTable, Result, ok, ◌>>=◌,
}
use proxy.Compile.Request.{
  Regex, Headers, ir_hostname_matches, ir_listener_specificity_score, specificity_score,
}
use proxy.Compile.Host.{compile_host, lookup}

-- `total_plan_count`, over a node and over its children.
unfoldable mutual
  total_plan_count : PathTrieNode → ℕ
  total_plan_count (trie_node cs plans) =
      length plans.prefix_plans + length plans.exact_plans + children_plan_count cs

  children_plan_count : Children → ℕ
  children_plan_count no_child = 0
  children_plan_count (child s node rest) = total_plan_count node + children_plan_count rest

rules_count : HostNode → ℕ
rules_count node = total_plan_count node.path_trie + length node.regex_plans

-- The comparison of `wildcard_hosts.sort_by` is `Greater`.
pub wildcard_gt : HostnameMatch × HostNode → HostnameMatch × HostNode → Bool
wildcard_gt a b =
    if specificity_score a.0 == specificity_score b.0
    then ltb (rules_count b.1) (rules_count a.1)
    else ltb (specificity_score a.0) (specificity_score b.0)

-- The local variables of `CompiledRouteTable::compile`.
pub record Hosts : Type 0 where
  pub exact_hosts : List (Str × List HostNode)
  pub wildcard_hosts : List (HostnameMatch × HostNode)
  pub any_host : Option HostNode

-- The `match` on a host's name.
unfoldable pub add_host : HostnameMatch → HostNode → Hosts → Hosts
add_host (HostnameMatch.exact s) node st = record st {
  exact_hosts = entry_push s node st.exact_hosts;
}
add_host (HostnameMatch.prefix s) node st = record st {
  wildcard_hosts = st.wildcard_hosts ++ (HostnameMatch.prefix s, node) ∷ [];
}
add_host (HostnameMatch.wildcard s) node st = record st {
  wildcard_hosts = st.wildcard_hosts ++ (HostnameMatch.wildcard s, node) ∷ [];
}
add_host HostnameMatch.any node st = record st { any_host = some node }

-- The loop of `compile` over the hosts.
unfoldable pub add_hosts : (List (Str × ℕ) → List (Str × ℕ)) → List HostRoute → Hosts → Result Hosts
unfolding add_host
add_hosts iter [] st = ok st
add_hosts iter (host ∷ hosts) st = do
  node ← compile_host iter host
  add_hosts iter hosts (add_host host.hostname node st)

abbrev pub no_hosts : Hosts
no_hosts = record { exact_hosts = []; wildcard_hosts = []; any_host = none }

abbrev pub sorted_table : RouteTable → Hosts → CompiledRouteTable
sorted_table ir st = record {
  exact_hosts = st.exact_hosts;
  wildcard_hosts = sort_by wildcard_gt st.wildcard_hosts;
  any_host = st.any_host;
  acme_routes = ir.acme_routes;
}

-- `CompiledRouteTable::compile`.
unfoldable pub compile_table :
    (List (Str × ℕ) → List (Str × ℕ)) → RouteTable → Result CompiledRouteTable
unfolding add_hosts
compile_table iter ir = do st ← add_hosts iter ir.hosts no_hosts; ok (sorted_table ir st)

unfoldable pub listener_hostname_matches : Str → Option HostnameMatch → Bool
listener_hostname_matches host none = true
listener_hostname_matches host (some (HostnameMatch.exact s)) =
    if is_empty s then true else ir_hostname_matches host (HostnameMatch.exact s)
listener_hostname_matches host (some lh) = ir_hostname_matches host lh

unfoldable pub listener_port_matches : ℕ → Option ℕ → Bool
listener_port_matches port none = true
listener_port_matches port (some p) = p == port

unfoldable pub listener_specificity_score : Option HostnameMatch → ℕ
listener_specificity_score none = 0
listener_specificity_score (some HostnameMatch.any) = 0
listener_specificity_score (some (HostnameMatch.exact s)) =
    if is_empty s then 0 else ir_listener_specificity_score (HostnameMatch.exact s)
listener_specificity_score (some lh) = ir_listener_specificity_score lh

abbrev pub wild_candidates : CompiledRouteTable → Str → List HostNode
wild_candidates table host =
    filter_map (λ e. if ir_hostname_matches host e.0 then some e.1 else none) table.wildcard_hosts

abbrev pub option_list : Option HostNode → List HostNode
option_list none = []
option_list (some node) = node ∷ []

-- The three loops that `find_host_node` and `has_gateway_api_listener` begin with.
abbrev pub host_candidates : CompiledRouteTable → Str → List HostNode
host_candidates table host =
    bucket host table.exact_hosts ++ (wild_candidates table host ++ option_list table.any_host)

abbrev pub listener_accepts : Str → ℕ → HostNode → Bool
listener_accepts host port n =
    listener_hostname_matches host n.listener_hostname && listener_port_matches port n.listener_port

abbrev pub listener_score : HostNode → ℕ
listener_score n = listener_specificity_score n.listener_hostname

abbrev pub route_score : HostNode → ℕ
route_score n = specificity_score n.hostname

-- `find_host_node` from the filtered candidates on.
unfoldable pub most_specific : List HostNode → Option HostNode
most_specific cs =
    let best = filter (λ n. listener_score n == max_of listener_score cs) cs in
    if is_empty cs then none else find (λ n. route_score n == max_of route_score best) best

unfoldable pub find_host_node : CompiledRouteTable → Str → ℕ → Option HostNode
unfolding most_specific listener_hostname_matches listener_port_matches
find_host_node table host port =
    most_specific (filter (λ n. listener_accepts host port n) (host_candidates table host))

unfoldable pub has_gateway_api_listener : CompiledRouteTable → Str → ℕ → Bool
has_gateway_api_listener table host port =
    any (λ n. n.gateway_api && listener_accepts host port n) (host_candidates table host)

unfoldable pub has_gateway_api_routes : CompiledRouteTable → Bool
has_gateway_api_routes table =
    is_some_and (λ (n : HostNode). n.gateway_api) table.any_host
    || (any (λ e. any (λ (n : HostNode). n.gateway_api) e.1) table.exact_hosts
        || any (λ e. e.1.gateway_api) table.wildcard_hosts)

-- `let host_node = …?; host_node.lookup(…)`.
abbrev pub lookup_at : Regex → Str → Str → Headers → Option Str → Option HostNode → Option ArcPlan
lookup_at re path method headers query none = none
lookup_at re path method headers query (some node) = lookup re method headers query node path

-- `CompiledRouteTable::lookup`.
unfoldable pub table_lookup :
    Regex → CompiledRouteTable → Str → ℕ → Str → Str → Headers → Option Str → Option ArcPlan
unfolding find_host_node
table_lookup re table host port path method headers query =
    lookup_at re path method headers query (find_host_node table host port)
