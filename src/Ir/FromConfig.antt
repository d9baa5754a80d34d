-- ===== src/Ir/FromConfig.antt =====
-- src/ir/from_config.rs: the routes of the configuration file become a route table.
pub mod Rules
pub mod Lookup
mod Examples
use proxy.Common.{
  ℕ, suc, ◌+◌, ◌*◌, ◌==◌, Bool, true, false, ◌||◌, Option, none, some, List, [], ◌∷◌, ◌++◌, map,
  length, any, if◌then◌else◌, is_some, or_else,
}
use proxy.Common.Text.{Str, codes, str_eq, strip_prefix}
use mathlib.Core.Option
use proxy.Config.{
  HeaderRule, HeaderMatchValueConfig, HeaderMatchConfig, QueryParamMatchValueConfig,
  QueryParamMatchConfig, WeightedBackendConfig, RedirectRule, CacheConfig, PathRoute, RouteConfig,
}
use proxy.Config
use proxy.Ir.PathRoutes.{
  header_value, header_match, query_value, query_match, first, path_match, request_match, pushed,
  request_filters, header_filters, cors_config, response_filters, fixed, redirect_path,
  redirect_action, weighted, backends_of, cache_policy, body_rewrite, from_secs, from_millis,
  route_action, deny_or_route, redirect_or, path_action,
}
use proxy.Ir.{
  HostnameMatch, PathMatch, HeaderMatchValue, HeaderMatch, QueryParamMatchValue, QueryParamMatch,
  RequestMatch, PathRewrite, RequestFilter, CorsConfig, ResponseFilter, BackendProtocol,
  WeightedBackend, CachePolicy, BodyRewrite, AuthConfig, RewriteRule, RouteAction, RedirectAction,
  StaticFileAction, FixedResponseAction, Action, Rule, HostRoute, RouteTable,
}

unfoldable pub parse_host_prefix : Str → HostnameMatch
parse_host_prefix p =
    if str_eq p (codes "*") then HostnameMatch.any else elim (strip_prefix p (codes "*.")) [
      | some rest ↦ HostnameMatch.wildcard rest
      | none ↦ if any (λ c. c == b'.') p then HostnameMatch.exact p else HostnameMatch.prefix p
    ]

-- The rule of a path route.
abbrev pub path_rule : RouteConfig → ℕ → PathRoute → Rule
path_rule route order pr = record {
  matches = request_match pr ∷ [];
  action = path_action route pr;
  rule_order = order;
}

-- The loop over the path routes, from a rule order.
unfoldable pub path_rules : RouteConfig → ℕ → List PathRoute → List Rule
unfolding request_match path_action
path_rules route order [] = []
path_rules route order (pr ∷ prs) = path_rule route order pr ∷ path_rules route (order + 1) prs

abbrev pub no_match : RequestMatch
no_match = record { path = none; method = none; headers = []; query_params = [] }

-- The rule of a host without path routes.
unfoldable pub catch_all : RouteConfig → Rule
catch_all route = record {
  matches = no_match ∷ [];
  action = Action.route (record {
    backends = weighted route.backend 1 ∷ [];
    timeout = Option.map from_secs route.timeout_secs;
    request_filters = [];
    response_filters =
        header_filters route.response_headers route.response_headers_add
          route.response_headers_remove;
    mirror_backends = [];
    mirror_fractions = [];
    cache = Option.map cache_policy route.cache;
    body_rewrites = map body_rewrite route.body_rewrites;
    auth = none;
    websocket = route.websocket;
    disable_https_redirect = route.disable_secure_redirection;
    client_cert_id = none;
  });
  rule_order = 0;
}

abbrev pub rules_or_catch_all : RouteConfig → List Rule → List Rule
rules_or_catch_all route [] = catch_all route ∷ []
rules_or_catch_all route (r ∷ rs) = r ∷ rs

abbrev pub static_action : RouteConfig → Str → StaticFileAction
static_action route root = record {
  root = root;
  fallback = route.fallback;
  rewrites =
      map (λ (r : Config.RewriteRule). record { pattern_text = r.pattern_text; target = r.target })
        route.rewrites;
  extra_headers = map (λ (h : HeaderRule). (h.name, h.value)) route.response_headers;
}

unfoldable pub static_rule : RouteConfig → ℕ → Str → Rule
static_rule route order root = record {
  matches = record no_match { path = some (PathMatch.prefix (codes "/")) } ∷ [];
  action = Action.static_files (static_action route root);
  rule_order = order;
}

-- All rules of a host.
unfoldable pub host_rules : RouteConfig → List Rule
unfolding path_rules catch_all static_rule
host_rules route =
    rules_or_catch_all route (path_rules route 0 route.paths)
    ++ pushed (static_rule route (length route.paths)) route.static_root

unfoldable pub listener_match : Str → HostnameMatch
listener_match s =
    if str_eq s (codes "*") then HostnameMatch.any else elim (strip_prefix s (codes "*.")) [
      | some rest ↦ HostnameMatch.wildcard rest
      | none ↦ HostnameMatch.exact s
    ]

-- The `HostRoute` of one route.
unfoldable pub host_route : RouteConfig → HostRoute
unfolding host_rules parse_host_prefix listener_match
host_route route = record {
  hostname = parse_host_prefix route.host_prefix;
  listener_ids = pushed (λ s. s) route.listener_hostname;
  listener_hostname = Option.map listener_match route.listener_hostname;
  listener_port = none;
  gateway_api = route.gateway_api;
  disable_secure_redirection = route.disable_secure_redirection;
  rules = host_rules route;
}

unfoldable pub from_route_configs : List RouteConfig → RouteTable
unfolding host_route
from_route_configs routes = record {
  listeners = [];
  hosts = map host_route routes;
  acme_routes = [];
  l4_routes = [];
  tls_certs = [];
}
