-- ===== src/Ir/PathRoutes.antt =====
-- src/ir/from_config.rs: the match, the filters and the action of one path route.
use proxy.Common.{
  ℕ, ◌*◌, ◌||◌, Option, none, some, List, [], ◌∷◌, ◌++◌, map, if◌then◌else◌, or_else,
}
use proxy.Common.Text.{Str}
use mathlib.Core.Option
use proxy.Config.{
  HeaderRule, HeaderMatchValueConfig, HeaderMatchConfig, QueryParamMatchValueConfig,
  QueryParamMatchConfig, WeightedBackendConfig, RedirectRule, CacheConfig, PathRoute, RouteConfig,
}
use proxy.Config
use proxy.Ir.{
  PathMatch, HeaderMatchValue, HeaderMatch, QueryParamMatchValue, QueryParamMatch, RequestMatch,
  PathRewrite, RequestFilter, CorsConfig, ResponseFilter, BackendProtocol, WeightedBackend,
  CachePolicy, BodyRewrite, RouteAction, RedirectAction, Action,
}

abbrev pub header_value : HeaderMatchValueConfig → HeaderMatchValue
header_value (HeaderMatchValueConfig.exact v) = HeaderMatchValue.exact v
header_value (HeaderMatchValueConfig.regex v) = HeaderMatchValue.regex v
header_value HeaderMatchValueConfig.present = HeaderMatchValue.present
header_value HeaderMatchValueConfig.absent = HeaderMatchValue.absent

abbrev pub header_match : HeaderMatchConfig → HeaderMatch
header_match h = record { name = h.name; value = header_value h.value }

abbrev pub query_value : QueryParamMatchValueConfig → QueryParamMatchValue
query_value (QueryParamMatchValueConfig.exact v) = QueryParamMatchValue.exact v
query_value (QueryParamMatchValueConfig.regex v) = QueryParamMatchValue.regex v

abbrev pub query_match : QueryParamMatchConfig → QueryParamMatch
query_match q = record { name = q.name; value = query_value q.value }

-- `methods[0]`, where there is one.
abbrev pub first : List Str → Option Str
first [] = none
first (m ∷ ms) = some m

abbrev pub path_match : PathRoute → PathMatch
path_match pr =
    if pr.path_match_exact then PathMatch.exact pr.prefix else PathMatch.prefix pr.prefix

-- The `req_match` of a path route.
unfoldable pub request_match : PathRoute → RequestMatch
request_match pr = record {
  path = some (path_match pr);
  method = first pr.methods;
  headers = map header_match pr.header_matches;
  query_params = map query_match pr.query_param_matches;
}

-- `if let Some(x) = o { filters.push(f(x)) }`.
abbrev pub pushed {ℓ κ} : {A : Type ℓ} {B : Type κ} → (A → B) → Option A → List B
pushed f none = []
pushed f (some a) = f a ∷ []

unfoldable pub request_filters : PathRoute → List RequestFilter
request_filters pr =
    (if pr.strip_prefix then RequestFilter.strip_prefix pr.prefix ∷ [] else [])
    ++ pushed (λ u. RequestFilter.prepend_path u) pr.upstream_path_prefix
    ++ pushed (λ p. RequestFilter.rewrite_path (PathRewrite.full_replace p)) pr.path_rewrite_full
    ++ pushed (λ h. RequestFilter.rewrite_hostname h) pr.hostname_rewrite
    ++ map (λ (h : HeaderRule). RequestFilter.set_header h.name h.value) pr.request_headers
    ++ map (λ (h : HeaderRule). RequestFilter.add_header h.name h.value) pr.request_headers_add
    ++ map (λ n. RequestFilter.remove_header n) pr.request_headers_remove

-- The response headers that are set, added and removed, of a path route and of a host.
abbrev pub header_filters : List HeaderRule → List HeaderRule → List Str → List ResponseFilter
header_filters set add remove =
    map (λ (h : HeaderRule). ResponseFilter.set_header h.name h.value) set
    ++ map (λ (h : HeaderRule). ResponseFilter.add_header h.name h.value) add
    ++ map (λ n. ResponseFilter.remove_header n) remove

abbrev pub cors_config : Config.CorsConfig → CorsConfig
cors_config c = record {
  allow_origins = c.allow_origins;
  allow_methods = c.allow_methods;
  allow_headers = c.allow_headers;
  expose_headers = c.expose_headers;
  max_age = c.max_age;
  allow_credentials = c.allow_credentials;
}

unfoldable pub response_filters : PathRoute → List ResponseFilter
response_filters pr =
    header_filters pr.response_headers pr.response_headers_add pr.response_headers_remove
    ++ pushed (λ c. ResponseFilter.cors (cors_config c)) pr.cors

abbrev pub fixed : ℕ → Action
fixed status = Action.fixed_response (record { status = status; headers = []; body = none })

abbrev pub redirect_path : Option Str → Str → PathRewrite
redirect_path (some prefix) p = PathRewrite.prefix_replace prefix p
redirect_path none p = PathRewrite.full_replace p

abbrev pub redirect_action : RedirectRule → RedirectAction
redirect_action r = record {
  status_code = r.status_code;
  scheme = r.scheme;
  hostname = r.hostname;
  port = r.port;
  path = Option.map (redirect_path r.path_prefix) r.path;
}

abbrev pub weighted : Str → ℕ → WeightedBackend
weighted backend weight = record {
  backend = backend;
  weight = weight;
  request_filters = [];
  protocol = BackendProtocol.http;
  tls = none;
}

abbrev pub backends_of : Str → List WeightedBackendConfig → List WeightedBackend
backends_of backend [] = weighted backend 1 ∷ []
backends_of backend (wb ∷ wbs) =
    map (λ (w : WeightedBackendConfig). weighted w.backend w.weight) (wb ∷ wbs)

abbrev pub cache_policy : CacheConfig → CachePolicy
cache_policy c = record {
  enabled = c.enabled;
  default_ttl_secs = c.default_ttl_secs;
  respect_cache_headers = c.respect_cache_headers;
  stale_while_revalidate_secs = c.stale_while_revalidate_secs;
  max_file_size = c.max_file_size;
}

abbrev pub body_rewrite : Config.BodyRewrite → BodyRewrite
body_rewrite br = record { find = br.find; replace = br.replace; types = br.types }

-- `Duration::from_secs` and `Duration::from_millis`, in nanoseconds.
abbrev pub from_secs : ℕ → ℕ
from_secs s = s * 1000000000

abbrev pub from_millis : ℕ → ℕ
from_millis ms = ms * 1000000

-- The action of a path route that forwards.
unfoldable pub route_action : RouteConfig → PathRoute → RouteAction
unfolding request_filters response_filters
route_action route pr = record {
  backends = backends_of pr.backend pr.weighted_backends;
  timeout = or_else (Option.map from_millis pr.timeout_ms) (Option.map from_secs pr.timeout_secs);
  request_filters = request_filters pr;
  response_filters = response_filters pr;
  mirror_backends = pr.mirror_backends;
  mirror_fractions = [];
  cache = Option.map cache_policy route.cache;
  body_rewrites = map body_rewrite route.body_rewrites;
  auth =
      Option.map (λ url. record { url = url; capture_headers = pr.auth_capture_headers })
        pr.auth_request;
  websocket = pr.websocket || route.websocket;
  disable_https_redirect = route.disable_secure_redirection;
  client_cert_id = none;
}

-- The `else` of the chain below.
abbrev pub deny_or_route : RouteConfig → PathRoute → Action
deny_or_route route pr = if pr.deny then fixed 403 else Action.route (route_action route pr)

abbrev pub redirect_or : Option RedirectRule → Action → Action
redirect_or (some r) a = Action.redirect (redirect_action r)
redirect_or none a = a

-- The `action` of a path route.
unfoldable pub path_action : RouteConfig → PathRoute → Action
unfolding route_action
path_action route pr =
    if pr.gateway_api_unprogrammed
    then fixed 500
    else redirect_or pr.redirect (deny_or_route route pr)
