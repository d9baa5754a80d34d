-- ===== src/Gateway/FromModel.antt =====
-- src/gateway/translate/from_model.rs: the `From` conversions of the model's types to the route
-- table's.
use proxy.Common.{true, Option, none, some, List, [], ◌∷◌, ◌++◌, map, flat_map, if◌then◌else◌}
use proxy.Common.Text.{is_empty}
use mathlib.Core.Option
use proxy.Ir
use proxy.Gateway.Model.Routing.{
  PathMatch, HeaderMatchValue, HeaderMatch, QueryParamMatchValue, QueryParamMatch, RouteMatch,
  PathRewrite, RouteFilter, BackendTlsAttachment, WeightedBackend,
}

abbrev pub path_match : PathMatch → Ir.PathMatch
path_match (PathMatch.prefix p) = Ir.PathMatch.prefix p
path_match (PathMatch.exact p) = Ir.PathMatch.exact p
path_match (PathMatch.regex p) = Ir.PathMatch.regex p

abbrev pub path_rewrite : PathRewrite → Ir.PathRewrite
path_rewrite (PathRewrite.full_replace t) = Ir.PathRewrite.full_replace t
path_rewrite (PathRewrite.prefix_replace p r) = Ir.PathRewrite.prefix_replace p r

abbrev pub header_value : HeaderMatchValue → Ir.HeaderMatchValue
header_value (HeaderMatchValue.exact v) = Ir.HeaderMatchValue.exact v
header_value (HeaderMatchValue.regex v) = Ir.HeaderMatchValue.regex v
header_value HeaderMatchValue.present = Ir.HeaderMatchValue.present
header_value HeaderMatchValue.absent = Ir.HeaderMatchValue.absent

abbrev pub header_match : HeaderMatch → Ir.HeaderMatch
header_match h = record { name = h.name; value = header_value h.value }

abbrev pub query_value : QueryParamMatchValue → Ir.QueryParamMatchValue
query_value (QueryParamMatchValue.exact v) = Ir.QueryParamMatchValue.exact v
query_value (QueryParamMatchValue.regex v) = Ir.QueryParamMatchValue.regex v

abbrev pub query_match : QueryParamMatch → Ir.QueryParamMatch
query_match q = record { name = q.name; value = query_value q.value }

unfoldable pub request_match : RouteMatch → Ir.RequestMatch
request_match m = record {
  path = Option.map path_match m.path;
  method = m.method;
  headers = map header_match m.headers;
  query_params = map query_match m.query_params;
}

-- `if let Some(a) = o { out.push(f(a)) }`.
abbrev pub pushed {ℓ κ} : {A : Type ℓ} {B : Type κ} → (A → B) → Option A → List B
pushed f none = []
pushed f (some a) = f a ∷ []

unfoldable pub route_filter_to_request_filters : RouteFilter → List Ir.RequestFilter
route_filter_to_request_filters (RouteFilter.request_header_set n v) =
    Ir.RequestFilter.set_header n v ∷ []
route_filter_to_request_filters (RouteFilter.request_header_add n v) =
    Ir.RequestFilter.add_header n v ∷ []
route_filter_to_request_filters (RouteFilter.request_header_remove n) =
    Ir.RequestFilter.remove_header n ∷ []
route_filter_to_request_filters (RouteFilter.url_rewrite hostname path) =
    pushed (λ h. Ir.RequestFilter.rewrite_hostname h) hostname
    ++ pushed (λ p. Ir.RequestFilter.rewrite_path (path_rewrite p)) path
route_filter_to_request_filters (RouteFilter.response_header_set n v) = []
route_filter_to_request_filters (RouteFilter.response_header_add n v) = []
route_filter_to_request_filters (RouteFilter.response_header_remove n) = []
route_filter_to_request_filters (RouteFilter.request_redirect r) = []
route_filter_to_request_filters (RouteFilter.request_mirror b f) = []
route_filter_to_request_filters (RouteFilter.cors c) = []

abbrev pub backend_tls : BackendTlsAttachment → Ir.BackendTlsConfig
backend_tls t = record {
  sni = t.hostname;
  verify_hostname = true;
  alternative_cn = none;
  client_cert_id = none;
  ca_bundle_pem = if is_empty t.ca_bundle_pem then none else some t.ca_bundle_pem;
  subject_alt_names = t.subject_alt_names;
}

unfoldable pub weighted_backend : WeightedBackend → Ir.WeightedBackend
unfolding route_filter_to_request_filters
weighted_backend b = record {
  backend = b.backend;
  weight = b.weight;
  request_filters = flat_map route_filter_to_request_filters b.filters;
  protocol = b.protocol;
  tls = Option.map backend_tls b.tls;
}
