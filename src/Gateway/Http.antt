-- ===== src/Gateway/Http.antt =====
-- src/gateway/translate/http.rs: the rules of an HTTPRoute become rules of the route table.
use proxy.Common.{
  ℕ, ◌*◌, Bool, true, false, Option, none, some, List, [], ◌∷◌, ◌++◌, map, any, flat_map,
  if◌then◌else◌, ltb, or_else,
}
use proxy.Common.Text.{Str}
use mathlib.Core.Option
use proxy.Ir
use proxy.Ir.{BackendProtocol, with_matched_prefix}
use proxy.Gateway.Model.Routing.{
  Redirect, Cors, Fraction, RouteFilter, WeightedBackend, HttpRouteRule,
}
use proxy.Gateway.FromModel.{path_rewrite, request_match, pushed, backend_tls, weighted_backend}

-- `unprogrammed_action` of src/gateway/translate/ir.rs.
abbrev pub unprogrammed_action : Ir.Action
unprogrammed_action = Ir.Action.fixed_response (record { status = 500; headers = []; body = none })

abbrev pub no_match : Ir.RequestMatch
no_match = record { path = none; method = none; headers = []; query_params = [] }

-- What one filter pushes in `apply_header_filters`, on the requests and on the responses.
unfoldable pub header_request_filter : RouteFilter → List Ir.RequestFilter
header_request_filter (RouteFilter.request_header_set n v) = Ir.RequestFilter.set_header n v ∷ []
header_request_filter (RouteFilter.request_header_add n v) = Ir.RequestFilter.add_header n v ∷ []
header_request_filter (RouteFilter.request_header_remove n) = Ir.RequestFilter.remove_header n ∷ []
header_request_filter _ = []

unfoldable pub header_response_filter : RouteFilter → List Ir.ResponseFilter
header_response_filter (RouteFilter.response_header_set n v) = Ir.ResponseFilter.set_header n v ∷ []
header_response_filter (RouteFilter.response_header_add n v) = Ir.ResponseFilter.add_header n v ∷ []
header_response_filter (RouteFilter.response_header_remove n) =
    Ir.ResponseFilter.remove_header n ∷ []
header_response_filter _ = []

-- `apply_header_filters`, on empty vectors.
unfoldable pub apply_header_filters :
    List RouteFilter → List Ir.RequestFilter × List Ir.ResponseFilter
unfolding header_request_filter header_response_filter
apply_header_filters filters =
    (flat_map header_request_filter filters, flat_map header_response_filter filters)

abbrev pub cors_config : Cors → Ir.CorsConfig
cors_config c = record {
  allow_origins = c.allow_origins;
  allow_methods = c.allow_methods;
  allow_headers = c.allow_headers;
  expose_headers = c.expose_headers;
  max_age = c.max_age;
  allow_credentials = c.allow_credentials;
}

abbrev pub prefix_of : Option Ir.PathMatch → Option Str
prefix_of none = none
prefix_of (some (Ir.PathMatch.prefix s)) = some s
prefix_of (some (Ir.PathMatch.exact s)) = none
prefix_of (some (Ir.PathMatch.regex s)) = none

abbrev pub ir_fraction : Fraction → Ir.Fraction
ir_fraction f = record { numerator = f.numerator; denominator = f.denominator }

-- What the second loop of `build_ir_rule` pushes for one filter, by the vector that it goes to.
unfoldable pub rewrite_filter : Option Str → RouteFilter → List Ir.RequestFilter
rewrite_filter matched (RouteFilter.url_rewrite hostname path) =
    pushed (λ h. Ir.RequestFilter.rewrite_hostname h) hostname
    ++ pushed (λ p. Ir.RequestFilter.rewrite_path (with_matched_prefix (path_rewrite p) matched))
        path
rewrite_filter matched _ = []

unfoldable pub cors_filter : RouteFilter → List Ir.ResponseFilter
cors_filter (RouteFilter.cors c) = Ir.ResponseFilter.cors (cors_config c) ∷ []
cors_filter _ = []

unfoldable pub mirror_of : RouteFilter → List (Str × Option Ir.Fraction)
mirror_of (RouteFilter.request_mirror backend fraction) =
    (backend, Option.map ir_fraction fraction) ∷ []
mirror_of _ = []

abbrev pub redirect_action : Option Str → Redirect → Ir.RedirectAction
redirect_action matched r = record {
  status_code = r.status_code;
  scheme = r.scheme;
  hostname = r.hostname;
  port = r.port;
  path = Option.map (λ p. with_matched_prefix (path_rewrite p) matched) r.path;
}

-- The `redirect` after the loop: the last one counts.
unfoldable pub last_redirect :
    Option Str → List RouteFilter → Option Ir.RedirectAction → Option Ir.RedirectAction
last_redirect matched [] redirect = redirect
last_redirect matched (RouteFilter.request_redirect r ∷ fs) redirect =
    last_redirect matched fs (some (redirect_action matched r))
last_redirect matched (f ∷ fs) redirect = last_redirect matched fs redirect

abbrev pub is_web_socket : BackendProtocol → Bool
is_web_socket BackendProtocol.http = false
is_web_socket BackendProtocol.h2c = false
is_web_socket BackendProtocol.https = false
is_web_socket BackendProtocol.web_socket = true
is_web_socket BackendProtocol.web_socket_secure = true

-- `Option::filter(|&s| s > 0)`.
abbrev pub positive : Option ℕ → Option ℕ
positive none = none
positive (some n) = if ltb 0 n then some n else none

-- `Duration::from_millis`, in nanoseconds.
abbrev pub from_millis : ℕ → ℕ
from_millis ms = ms * 1000000

unfoldable pub http_route_action : HttpRouteRule → Option Str → Option Str → Ir.RouteAction
unfolding apply_header_filters rewrite_filter cors_filter mirror_of
http_route_action rule matched client_cert_id = record {
  backends = map weighted_backend rule.backends;
  timeout =
      Option.map from_millis
        (or_else (positive rule.request_timeout_ms) (positive rule.timeout_ms));
  request_filters =
      (apply_header_filters rule.filters).0 ++ flat_map (rewrite_filter matched) rule.filters;
  response_filters = (apply_header_filters rule.filters).1 ++ flat_map cors_filter rule.filters;
  mirror_backends = map (λ m. m.0) (flat_map mirror_of rule.filters);
  mirror_fractions = map (λ m. m.1) (flat_map mirror_of rule.filters);
  cache = none;
  body_rewrites = [];
  auth = none;
  websocket = any (λ (b : WeightedBackend). is_web_socket b.protocol) rule.backends;
  disable_https_redirect = true;
  client_cert_id = client_cert_id;
}

abbrev pub redirect_or_route : Option Ir.RedirectAction → Ir.RouteAction → Ir.Action
redirect_or_route (some r) a = Ir.Action.redirect r
redirect_or_route none a = Ir.Action.route a

unfoldable pub build_ir_rule : HttpRouteRule → Ir.RequestMatch → ℕ → Option Str → Ir.Rule
unfolding last_redirect http_route_action
build_ir_rule rule req_match rule_idx client_cert_id = record {
  matches = req_match ∷ [];
  action =
      redirect_or_route (last_redirect (prefix_of req_match.path) rule.filters none)
        (http_route_action rule (prefix_of req_match.path) client_cert_id);
  rule_order = rule_idx;
}

-- As `weighted_backend`, without the backend's filters.
unfoldable pub to_ir_weighted_backend : WeightedBackend → Ir.WeightedBackend
to_ir_weighted_backend b = record {
  backend = b.backend;
  weight = b.weight;
  request_filters = [];
  protocol = b.protocol;
  tls = Option.map backend_tls b.tls;
}

-- The matches of a rule, one that accepts everything where it has none.
abbrev pub matches_or_default {ℓ} :
    {A : Type ℓ} → (A → Ir.RequestMatch) → List A → List Ir.RequestMatch
matches_or_default f [] = no_match ∷ []
matches_or_default f (m ∷ ms) = map f (m ∷ ms)

abbrev pub unprogrammed_rule : ℕ → Ir.RequestMatch → Ir.Rule
unprogrammed_rule rule_idx m = record {
  matches = m ∷ [];
  action = unprogrammed_action;
  rule_order = rule_idx;
}

unfoldable pub translate_rule_to_ir : HttpRouteRule → ℕ → Bool → Option Str → List Ir.Rule
unfolding build_ir_rule
translate_rule_to_ir rule rule_idx programmed client_cert_id =
    if programmed
    then map (λ m. build_ir_rule rule m rule_idx client_cert_id)
        (matches_or_default request_match rule.matches)
    else map (unprogrammed_rule rule_idx) (matches_or_default request_match rule.matches)
