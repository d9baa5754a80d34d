-- ===== src/Gateway/ToIr/Examples.antt =====
-- A gateway with one listener and one HTTPRoute, translated, compiled and asked.
use mathlib.Core.List.{Memᴰ}
use proxy.Common.{ℕ, ◌≡◌, refl, true, false, none, some, List, [], ◌∷◌, ◌⊎◌, any, if◌then◌else◌}
use proxy.Common.Text.{
  Str, codes, split, str_eq, strip_prefix, strip_suffix, eq_ignore_ascii_case, ends_with,
}
use proxy.Common.BTreeMap
use proxy.Common.KeyMap
use proxy.Common.HashMap.{bucket, entry_push}
use proxy.Common.Sort.{sort_by}
use proxy.Ir.{BackendProtocol}
use proxy.Compile.Request.{under_suffix}
use proxy.Ir
use proxy.Gateway.Hostnames.{
  HostnameMatch, parse_listener_hostname, intersect_hostnames, listener_hostname_intersects,
  is_hostname_subset, to_ir_hostname,
}
use proxy.Gateway.Hostnames.Overlap.{hits}
use proxy.Gateway.Namespaces.{listener_allows_kind, namespace_allowed}
use proxy.Gateway.Model.View.{ParentRef}
use proxy.Gateway.Effective.{
  EffectiveHostname, on_listener, find_parent, compute_effective_hostnames, allowed_of, group_name,
}
use proxy.Gateway.Effective.Sound.{IsOnListener, IsUnattached, compute_effective_hostnames_sound}
use proxy.Common.BTreeMap.{IsOrdered}
use proxy.Gateway.Effective.Attached.{route_accepts, listener_accepts}
use proxy.Gateway.ToIr.Groups.{entries, has_key, rules_at, stored, groups_of-rules}
use proxy.Common.{◌<◌, ◌≤◌}
use proxy.Compile.Table.{
  listener_hostname_matches, listener_port_matches, listener_score, route_score,
}
use proxy.Compile.Table.Routing.{listener_score_of, route_score_of}
use proxy.Gateway.ToIr.{listener_hostname_of}
use proxy.Gateway.ToIr.Groups.{Entry}
use proxy.Common.{All, arith}
use proxy.Gateway.Model.{GatewayView}
use proxy.Gateway.Model.Routing.{HttpRouteState}
use proxy.Gateway.ToIr.Unattached.{IsClosed, unattached_served_anywhere}
use proxy.Gateway.ToIr.Reached.{HasPlainListeners, HostOf, gateway_host_found}
use proxy.Gateway.ToIr.Lookup.{HasPlainNames, Answers, gateway_lookup}
use proxy.Gateway.Effective.{attached, anywhere, find_gateway}
use proxy.Gateway.Effective.Complete.{Served, compute_effective_hostnames_complete}
use mathlib.Core.Path.{subst, sym}
use proxy.Compile.Types.{ArcPlan, HostNode, CompiledRouteTable, ok}
use proxy.Compile.Plan.{compile_plan, compute_precedence, pack}
use proxy.Compile.Request.{
  Regex, Headers, plan_matches, plan_regex_path_matches, ir_hostname_matches, specificity_score,
  ir_listener_specificity_score,
}
use proxy.Compile.Discriminator.{
  distribute, sort_plans, sort_buckets, plan_gt, resolve_node_plans, add_discriminator,
}
use proxy.Compile.Trie.{walk, insert_plans, build_discriminators, split_path, get_child}
use proxy.Compile.Host.{compile_host, compile_plans, assemble, candidates, lookup}
use proxy.Compile.Table.{compile_table, find_host_node, table_lookup, listener_specificity_score}
use proxy.Gateway.FromModel.{weighted_backend}
use proxy.Gateway.Http.{no_match, build_ir_rule, translate_rule_to_ir}
use proxy.Gateway.ToIr.{
  new_host, rules_of_http, GroupKey, http_hostnames, groups_of, group_cmp, translate_view_to_ir,
}
use proxy.Gateway.Samples.{parent, web, edge, app, app_rule, shop, view}

abbrev on_web : EffectiveHostname
on_web =
    on_listener
      (record { listeners = web ∷ []; found = true; allowed_map = []; client_cert_id = none })
      (codes "a") (codes "edge") web (HostnameMatch.exact (codes "x.org"))

on_web-found :
    compute_effective_hostnames view (http_hostnames shop) (codes "HTTPRoute") ≡ on_web ∷ []
unfolding compute_effective_hostnames find_parent str_eq strip_prefix strip_suffix ends_with
    KeyMap.get listener_allows_kind namespace_allowed listener_hostname_intersects
    intersect_hostnames parse_listener_hostname is_hostname_subset under_suffix
on_web-found = refl

-- `on_web` is in the list of the route.
on_web-mem :
    Memᴰ on_web (compute_effective_hostnames view (http_hostnames shop) (codes "HTTPRoute"))
on_web-mem = subst (λ l. Memᴰ on_web l) (sym on_web-found) (Memᴰ.head refl)

x_hits : hits (codes "x.org") on_web.route_hostname ≡ true
unfolding ir_hostname_matches to_ir_hostname str_eq
x_hits = refl

compute_effective_hostnames_sound_example :
    (p : ParentRef) × Memᴰ p (parent ∷ [])
    × (IsOnListener view (http_hostnames shop) (codes "HTTPRoute") p (codes "x.org") on_web
        ⊎ IsUnattached view (http_hostnames shop) (codes "HTTPRoute") p on_web)
compute_effective_hostnames_sound_example =
    compute_effective_hostnames_sound view (http_hostnames shop) (codes "HTTPRoute") (codes "x.org")
      on_web on_web-mem x_hits

web_found : (find_parent view (codes "a") parent).found ≡ true
unfolding find_parent str_eq
web_found = refl

web_known : Memᴰ web (find_parent view (codes "a") parent).listeners
unfolding find_parent str_eq
web_known = Memᴰ.head refl

web_kind :
    listener_allows_kind
      (allowed_of (find_parent view (codes "a") parent) (codes "a") (codes "edge") web)
      group_name
      (codes "HTTPRoute")
    ≡ true
unfolding find_parent str_eq KeyMap.get listener_allows_kind
web_kind = refl

web_ns :
    namespace_allowed
      (allowed_of (find_parent view (codes "a") parent) (codes "a") (codes "edge") web).namespaces
      (codes "a")
      (codes "a")
      []
    ≡ true
unfolding find_parent str_eq KeyMap.get namespace_allowed
web_ns = refl

x_by_route : route_accepts (codes "x.org") (http_hostnames shop) ≡ true
unfolding ir_hostname_matches to_ir_hostname str_eq
x_by_route = refl

x_by_listener : listener_accepts (codes "x.org") web ≡ true
unfolding ir_hostname_matches to_ir_hostname parse_listener_hostname strip_prefix strip_suffix
    str_eq under_suffix
x_by_listener = refl

compute_effective_hostnames_complete_example :
    Served
      (compute_effective_hostnames view (http_hostnames shop) (codes "HTTPRoute"))
      (codes "a")
      (codes "edge")
      (codes "x.org")
      web
compute_effective_hostnames_complete_example =
    compute_effective_hostnames_complete view (http_hostnames shop) (codes "HTTPRoute")
      (codes "x.org") parent web (Memᴰ.head refl) web_found web_known web_kind web_ns x_by_route
      x_by_listener

abbrev to_edge : ParentRef
to_edge = record parent { namespace = some (codes "a") }

-- A route of another namespace, which the listener does not admit.
abbrev stranger : HttpRouteState
stranger = record shop { namespace = codes "b"; parent_refs = to_edge ∷ []; hostnames = [] }

abbrev strange_view : GatewayView
strange_view = record view { http_routes = stranger ∷ [] }

edge_there : find_gateway strange_view.gateways (codes "a") (codes "edge") ≡ some edge
unfolding str_eq
edge_there = refl

web-IsClosed : All (IsClosed strange_view stranger to_edge) edge.listeners
web-IsClosed = (IsClosed.of_namespace (unfold str_eq KeyMap.get namespace_allowed in refl), tt)

strange_names : HasPlainNames strange_view × HasPlainListeners strange_view
unfolding compute_effective_hostnames find_parent attached str_eq KeyMap.get listener_allows_kind
    namespace_allowed
strange_names = ((refl, tt), (refl, tt))

unattached_served_anywhere_example :
    (host : Ir.HostRoute) × Memᴰ host (translate_view_to_ir strange_view).hosts
    × (host.hostname ≡ Ir.HostnameMatch.any)
    × (host.listener_hostname ≡ none)
    × (host.listener_port ≡ none)
    × All (λ rule. Memᴰ rule host.rules) (rules_of_http stranger (anywhere HostnameMatch.any))
unattached_served_anywhere_example =
    unattached_served_anywhere strange_view stranger to_edge edge strange_names.0 strange_names.1
      (Memᴰ.head refl) (Memᴰ.head refl) refl (λ e. ground (arith, e)) edge_there web-IsClosed

abbrev key : GroupKey
key = (codes "*.org", codes "x.org", some 80)

groups_of-rules_example :
    IsOrdered group_cmp (groups_of view)
    × (stored key (groups_of view)
        ≡ (if any (has_key key) (entries view) then some (rules_at key (entries view)) else none))
groups_of-rules_example = groups_of-rules view key

abbrev iter : List (Str × ℕ) → List (Str × ℕ)
iter counts = counts

abbrev no_regex : Regex
no_regex pattern_text = none

abbrev no_headers : Headers
no_headers name = none

abbrev shop_host : Ir.HostRoute
shop_host = new_host on_web (build_ir_rule app_rule no_match 0 none ∷ [])

abbrev shop_plan : ArcPlan
shop_plan = record {
  as_ptr = 0;
  plan = record {
    precedence = compute_precedence (build_ir_rule app_rule no_match 0 none);
    rule_order = 0;
    gateway_api = true;
    disable_secure_redirection = true;
    listener_hostname = some (Ir.HostnameMatch.wildcard (codes "org"));
    matches = no_match;
    request_stages = [];
    upstream = some (record {
      backends = weighted_backend app ∷ [];
      timeout = none;
      mirror = [];
      mirror_fractions = [];
      backend_request_mutations = [] ∷ [];
    });
    upstream_request_mutations = [];
    response_mutations = [];
    body_rewrites = [];
    cache = none;
    websocket = false;
    client_cert_id = none;
  };
}

abbrev shop_node : HostNode
shop_node = assemble iter shop_host (shop_plan ∷ [])

abbrev shop_table : CompiledRouteTable
shop_table = record {
  exact_hosts = (codes "x.org", shop_node ∷ []) ∷ [];
  wildcard_hosts = [];
  any_host = none;
  acme_routes = [];
}

shop_hosts : (translate_view_to_ir view).hosts ≡ shop_host ∷ []
unfolding translate_view_to_ir compute_effective_hostnames find_parent str_eq strip_prefix
    strip_suffix ends_with KeyMap.get listener_allows_kind namespace_allowed
    listener_hostname_intersects intersect_hostnames parse_listener_hostname is_hostname_subset
    under_suffix BTreeMap.upsert new_host rules_of_http translate_rule_to_ir
shop_hosts = refl

shop_compiles : compile_table iter (translate_view_to_ir view) ≡ ok shop_table
unfolding compile_table sort_by compile_host compile_plans compile_plan entry_push
    translate_view_to_ir compute_effective_hostnames find_parent str_eq strip_prefix strip_suffix
    ends_with KeyMap.get listener_allows_kind namespace_allowed listener_hostname_intersects
    intersect_hostnames parse_listener_hostname is_hostname_subset under_suffix BTreeMap.upsert
    new_host rules_of_http translate_rule_to_ir build_ir_rule to_ir_hostname weighted_backend
shop_compiles = refl

asked :
    table_lookup no_regex shop_table (codes "x.org") 80 (codes "/a") (codes "GET") no_headers none
    ≡ some shop_plan
unfolding table_lookup find_host_node ir_hostname_matches strip_suffix specificity_score lookup
    assemble candidates plan_matches plan_regex_path_matches walk insert_plans build_discriminators
    distribute sort_plans plan_gt sort_buckets sort_by bucket entry_push split_path split
    resolve_node_plans add_discriminator eq_ignore_ascii_case str_eq compute_precedence pack
    get_child listener_specificity_score strip_prefix new_host to_ir_hostname under_suffix
    parse_listener_hostname ir_listener_specificity_score
asked = refl

plain : HasPlainNames view
unfolding compute_effective_hostnames find_parent str_eq strip_prefix strip_suffix ends_with
    KeyMap.get listener_allows_kind namespace_allowed listener_hostname_intersects
    intersect_hostnames parse_listener_hostname is_hostname_subset under_suffix
plain = (refl, tt)

gateway_lookup_example :
    Answers no_regex view
      (codes "x.org")
      80
      (codes "/a")
      (codes "GET")
      no_headers
      none
      shop_plan.plan
gateway_lookup_example =
    gateway_lookup iter no_regex view shop_table (codes "x.org") 80 (codes "/a") (codes "GET")
      no_headers none shop_plan plain shop_compiles asked

plain_listeners : HasPlainListeners view
unfolding compute_effective_hostnames find_parent str_eq strip_prefix strip_suffix ends_with
    KeyMap.get listener_allows_kind namespace_allowed listener_hostname_intersects
    intersect_hostnames parse_listener_hostname is_hostname_subset under_suffix
plain_listeners = (refl, tt)

abbrev shop_entry : Entry
shop_entry = (on_web, rules_of_http shop on_web)

shop_entry-mem : Memᴰ shop_entry (entries view)
unfolding compute_effective_hostnames find_parent str_eq strip_prefix strip_suffix ends_with
    KeyMap.get listener_allows_kind namespace_allowed listener_hostname_intersects
    intersect_hostnames parse_listener_hostname is_hostname_subset under_suffix
shop_entry-mem = Memᴰ.head refl

on_web-accepts :
    listener_hostname_matches (codes "x.org") (listener_hostname_of on_web.listener_hostname) ≡ true
unfolding listener_hostname_matches ir_hostname_matches to_ir_hostname under_suffix strip_suffix
    parse_listener_hostname strip_prefix str_eq
on_web-accepts = refl

on_web-port : listener_port_matches 80 on_web.listener_port ≡ true
unfolding listener_port_matches
on_web-port = refl

gateway_host_found_example :
    (h : HostOf view shop_entry) × (n : HostNode) × (find_host_node shop_table (codes "x.org") 80
      ≡ some n)
    × ((listener_score_of h.host < listener_score n)
        ⊎ ((listener_score_of h.host ≡ listener_score n) × (route_score_of h.host ≤ route_score n)))
gateway_host_found_example =
    gateway_host_found iter view shop_table (codes "x.org") 80 shop_entry plain plain_listeners
      shop_compiles shop_entry-mem (λ e. cc) x_hits on_web-accepts on_web-port
