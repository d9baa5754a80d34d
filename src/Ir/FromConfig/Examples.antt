-- ===== src/Ir/FromConfig/Examples.antt =====
-- A configuration with one host, whose path `/admin` is denied, compiled and asked.
use mathlib.Core.List.{Memᴰ}
use proxy.Common.{ℕ, ◌≡◌, refl, true, false, none, some, List, [], ◌∷◌}
use proxy.Common.Text.{Str, codes, split, str_eq, strip_prefix, strip_suffix, eq_ignore_ascii_case}
use proxy.Common.HashMap.{bucket, entry_push}
use proxy.Common.Sort.{sort_by}
use proxy.Config.{PathRoute, RouteConfig}
use proxy.Compile.Types.{TerminalAction, RequestStage, ArcPlan, HostNode, CompiledRouteTable, ok}
use proxy.Compile.Plan.{compile_plan, compute_precedence, pack}
use proxy.Compile.Request.{
  Regex, Headers, plan_matches, plan_regex_path_matches, ir_hostname_matches, specificity_score,
}
use proxy.Compile.Discriminator.{
  distribute, sort_plans, sort_buckets, plan_gt, resolve_node_plans, add_discriminator,
}
use proxy.Compile.Trie.{walk, insert_plans, build_discriminators, split_path, get_child}
use proxy.Compile.Host.{compile_host, compile_plans, assemble, candidates, lookup}
use proxy.Compile.Table.{compile_table, find_host_node, table_lookup, listener_specificity_score}
use proxy.Ir.PathRoutes.{path_action, request_match}
use proxy.Ir.FromConfig.{from_route_configs, host_route, path_rule, parse_host_prefix}
use proxy.Ir.FromConfig.Lookup.{Answers, configured_lookup}

abbrev iter : List (Str × ℕ) → List (Str × ℕ)
iter counts = counts

abbrev no_regex : Regex
no_regex pattern_text = none

abbrev no_headers : Headers
no_headers name = none

abbrev admin : PathRoute
admin = record {
  prefix = codes "/admin";
  backend = codes "http://app";
  strip_prefix = false;
  websocket = false;
  auth_request = none;
  auth_capture_headers = [];
  upstream_path_prefix = none;
  path_rewrite_full = none;
  hostname_rewrite = none;
  timeout_secs = none;
  timeout_ms = none;
  mirror_backends = [];
  cors = none;
  deny = true;
  gateway_api_unprogrammed = false;
  methods = [];
  weighted_backends = [];
  redirect = none;
  header_matches = [];
  query_param_matches = [];
  rule_order = 0;
  path_match_exact = false;
  request_headers = [];
  request_headers_add = [];
  request_headers_remove = [];
  response_headers = [];
  response_headers_add = [];
  response_headers_remove = [];
}

abbrev shop : RouteConfig
shop = record {
  host_prefix = codes "shop.org";
  backend = codes "http://app";
  websocket = false;
  disable_secure_redirection = false;
  paths = admin ∷ [];
  static_root = none;
  fallback = none;
  rewrites = [];
  body_rewrites = [];
  response_headers = [];
  response_headers_add = [];
  response_headers_remove = [];
  request_headers = [];
  request_headers_add = [];
  request_headers_remove = [];
  cache = none;
  cors = none;
  timeout_secs = none;
  listener_hostname = none;
  gateway_api = false;
}

abbrev admin_plan : ArcPlan
admin_plan = record {
  as_ptr = 0;
  plan = record {
    precedence = compute_precedence (path_rule shop 0 admin);
    rule_order = 0;
    gateway_api = false;
    disable_secure_redirection = false;
    listener_hostname = none;
    matches = request_match admin;
    request_stages = RequestStage.terminal (TerminalAction.fixed_response 403 [] none) ∷ [];
    upstream = none;
    upstream_request_mutations = [];
    response_mutations = [];
    body_rewrites = [];
    cache = none;
    websocket = false;
    client_cert_id = none;
  };
}

abbrev shop_node : HostNode
shop_node = assemble iter (host_route shop) (admin_plan ∷ [])

abbrev shop_table : CompiledRouteTable
shop_table = record {
  exact_hosts = (codes "shop.org", shop_node ∷ []) ∷ [];
  wildcard_hosts = [];
  any_host = none;
  acme_routes = [];
}

shop_compiles : compile_table iter (from_route_configs (shop ∷ [])) ≡ ok shop_table
unfolding compile_table sort_by compile_host compile_plans compile_plan from_route_configs
    entry_push str_eq strip_prefix
shop_compiles = refl

asked :
    table_lookup no_regex shop_table
      (codes "shop.org")
      443
      (codes "/admin/x")
      (codes "GET")
      no_headers
      none
    ≡ some admin_plan
unfolding table_lookup find_host_node ir_hostname_matches strip_suffix specificity_score lookup
    assemble candidates plan_matches plan_regex_path_matches walk insert_plans build_discriminators
    distribute sort_plans plan_gt sort_buckets sort_by bucket entry_push split_path split
    resolve_node_plans add_discriminator eq_ignore_ascii_case str_eq compute_precedence pack
    get_child listener_specificity_score host_route strip_prefix path_action
asked = refl

configured_lookup_example :
    (route : RouteConfig) × Memᴰ route (shop ∷ [])
    × (ir_hostname_matches (codes "shop.org") (parse_host_prefix route.host_prefix) ≡ true)
    × Answers no_regex route (codes "/admin/x") (codes "GET") no_headers none admin_plan.plan
configured_lookup_example =
    configured_lookup iter no_regex (shop ∷ []) shop_table (codes "shop.org") 443 (codes "/admin/x")
      (codes "GET") no_headers none admin_plan shop_compiles asked
