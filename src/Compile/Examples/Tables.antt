-- ===== src/Compile/Examples/Tables.antt =====
-- The lookups of a compiled route table.
use mathlib.Core.List.{Memᴰ}
use proxy.Common.{◌≤◌, ◌<◌, ◌≡◌, refl, ◌⊎◌, true, none, some, [], ◌∷◌}
use proxy.Common.Text.{codes, strip_suffix}
use proxy.Common.HashMap.{bucket}
use proxy.Common.Sort.{sort_by}
use proxy.Ir.{HostnameMatch, RequestMatch, Rule, HostRoute, RouteTable}
use proxy.Compile.Types.{HostNode, CompiledRouteTable, ok}
use proxy.Compile.Request.{ir_hostname_matches, request_matches, specificity_score}
use proxy.Compile.Host.{assemble}
use proxy.Compile.Host.Plans.{IsPlanOf}
use proxy.Compile.Host.Candidates.{PathFits}
use proxy.Compile.Table.{
  compile_table, find_host_node, has_gateway_api_listener, listener_hostname_matches,
  listener_port_matches, table_lookup, listener_hostname_matches, listener_port_matches,
  listener_specificity_score, listener_score, route_score,
}
use proxy.Compile.Table.Routing.{
  host_listens, listener_score_of, route_score_of, find_host_node_best, table_lookup_sound,
}
use proxy.Compile.Examples.{
  iter, no_regex, no_headers, demo_host, demo_node, demo_compiles, demo_prefix, prefix_plan,
}

abbrev demo_ir : RouteTable
demo_ir = record {
  listeners = [];
  hosts = demo_host ∷ [];
  acme_routes = [];
  l4_routes = [];
  tls_certs = [];
}

abbrev demo_table : CompiledRouteTable
demo_table = record {
  exact_hosts = [];
  wildcard_hosts = (HostnameMatch.wildcard (codes "example.com"), demo_node) ∷ [];
  any_host = none;
  acme_routes = [];
}

table_compiles : compile_table iter demo_ir ≡ ok demo_table
unfolding compile_table sort_by
table_compiles = rw (demo_compiles, compile_table) refl

found : find_host_node demo_table (codes "a.example.com") 443 ≡ some demo_node
unfolding find_host_node bucket ir_hostname_matches strip_suffix assemble listener_specificity_score
    specificity_score
found = refl

host_fits : ir_hostname_matches (codes "a.example.com") demo_host.hostname ≡ true
unfolding ir_hostname_matches strip_suffix
host_fits = refl

listens : host_listens (codes "a.example.com") 443 demo_host ≡ true
unfolding listener_hostname_matches listener_port_matches
listens = refl

looked_up :
    table_lookup no_regex demo_table
      (codes "a.example.com")
      443
      (codes "/api/y")
      (codes "GET")
      no_headers
      none
    ≡ some prefix_plan
unfolding table_lookup
looked_up = rw (found, table_lookup) demo_prefix

find_host_node_best_example :
    (n : HostNode) × (find_host_node demo_table (codes "a.example.com") 443 ≡ some n)
    × ((listener_score_of demo_host < listener_score n)
        ⊎ ((listener_score_of demo_host ≡ listener_score n)
            × (route_score_of demo_host ≤ route_score n)))
find_host_node_best_example =
    find_host_node_best iter demo_ir demo_table (codes "a.example.com") 443 demo_host table_compiles
      (Memᴰ.head refl) (λ e. cc) host_fits listens

table_lookup_sound_example :
    (h : HostRoute) × Memᴰ h demo_ir.hosts
    × (ir_hostname_matches (codes "a.example.com") h.hostname ≡ true)
    × (host_listens (codes "a.example.com") 443 h ≡ true)
    × (rule : Rule) × Memᴰ rule h.rules
    × (m : RequestMatch) × Memᴰ m rule.matches
    × IsPlanOf h rule m prefix_plan.plan
    × PathFits no_regex m.path (codes "/api/y")
    × (request_matches no_regex (codes "GET") no_headers none m ≡ true)
table_lookup_sound_example =
    table_lookup_sound iter demo_ir demo_table (codes "a.example.com") 443 no_regex (codes "/api/y")
      (codes "GET") no_headers none prefix_plan table_compiles looked_up

gateway_listens : has_gateway_api_listener demo_table (codes "a.example.com") 443 ≡ true
unfolding has_gateway_api_listener bucket ir_hostname_matches strip_suffix assemble
    listener_hostname_matches listener_port_matches
gateway_listens = refl
