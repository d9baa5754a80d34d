-- ===== src/Gateway/Model/Routing.antt =====
-- src/gateway/model/routing.rs: routes of the Gateway API after their objects are read.
use proxy.Common.{ℕ, Bool, Option, none, some, List, ◌++◌, ◌∷◌}
use proxy.Common.Text.{Str}
use proxy.Common.Signed.{I64}
use proxy.Ir.{I32, BackendProtocol}
use proxy.Gateway.Hostnames.{HostnameMatch}
use proxy.Gateway.Model.View.{ParentRef}

pub data PathMatch : Type 0 where
  prefix : Str → PathMatch
  exact : Str → PathMatch
  regex : Str → PathMatch

pub data HeaderMatchValue : Type 0 where
  exact : Str → HeaderMatchValue
  regex : Str → HeaderMatchValue
  present : HeaderMatchValue
  absent : HeaderMatchValue

pub record HeaderMatch : Type 0 where
  pub name : Str
  pub value : HeaderMatchValue

pub data QueryParamMatchValue : Type 0 where
  exact : Str → QueryParamMatchValue
  regex : Str → QueryParamMatchValue

pub record QueryParamMatch : Type 0 where
  pub name : Str
  pub value : QueryParamMatchValue

pub record RouteMatch : Type 0 where
  pub path : Option PathMatch
  pub headers : List HeaderMatch
  pub query_params : List QueryParamMatch
  pub method : Option Str

pub record Fraction : Type 0 where
  pub numerator : ℕ
  pub denominator : ℕ

pub data PathRewrite : Type 0 where
  full_replace : Str → PathRewrite
  prefix_replace : Str → Str → PathRewrite

-- The fields of `RouteFilter::RequestRedirect` and of `RouteFilter::Cors`.
pub record Redirect : Type 0 where
  pub scheme : Option Str
  pub hostname : Option Str
  pub path : Option PathRewrite
  pub port : Option ℕ
  pub status_code : ℕ

pub record Cors : Type 0 where
  pub allow_origins : List Str
  pub allow_methods : List Str
  pub allow_headers : List Str
  pub expose_headers : List Str
  pub max_age : Option I32
  pub allow_credentials : Bool

pub data RouteFilter : Type 0 where
  request_header_set : Str → Str → RouteFilter
  request_header_add : Str → Str → RouteFilter
  request_header_remove : Str → RouteFilter
  response_header_set : Str → Str → RouteFilter
  response_header_add : Str → Str → RouteFilter
  response_header_remove : Str → RouteFilter
  url_rewrite : Option Str → Option PathRewrite → RouteFilter
  request_redirect : Redirect → RouteFilter
  request_mirror : Str → Option Fraction → RouteFilter
  cors : Cors → RouteFilter

pub record BackendTlsAttachment : Type 0 where
  pub hostname : Str
  pub ca_bundle_pem : Str
  pub subject_alt_names : List Str

pub record WeightedBackend : Type 0 where
  pub backend : Str
  pub weight : ℕ
  pub filters : List RouteFilter
  pub protocol : BackendProtocol
  pub tls : Option BackendTlsAttachment

pub record HttpRouteRule : Type 0 where
  pub matches : List RouteMatch
  pub backends : List WeightedBackend
  pub filters : List RouteFilter
  pub timeout_ms : Option ℕ
  pub request_timeout_ms : Option ℕ
  pub programmed : Bool

pub record HttpRouteState : Type 0 where
  pub namespace : Str
  pub name : Str
  pub generation : I64
  pub hostnames : List HostnameMatch
  pub rules : List HttpRouteRule
  pub parent_refs : List ParentRef
  pub programmed : Bool

pub record TcpRouteState : Type 0 where
  pub namespace : Str
  pub name : Str
  pub generation : I64
  pub parent_refs : List ParentRef
  pub backends : List WeightedBackend
  pub programmed : Bool

pub record UdpRouteState : Type 0 where
  pub namespace : Str
  pub name : Str
  pub generation : I64
  pub parent_refs : List ParentRef
  pub backends : List WeightedBackend
  pub programmed : Bool

pub record TlsRouteState : Type 0 where
  pub namespace : Str
  pub name : Str
  pub generation : I64
  pub hostnames : List HostnameMatch
  pub parent_refs : List ParentRef
  pub backends : List WeightedBackend
  pub programmed : Bool

pub data MethodMatchType : Type 0 where
  exact : MethodMatchType
  regular : MethodMatchType

pub record MethodMatch : Type 0 where
  pub match_type : MethodMatchType
  pub service : Str
  pub method : Option Str
  pub case_sensitive : Bool

abbrev pub exact_path_of : MethodMatchType → Str → Option Str → Option Str
exact_path_of MethodMatchType.regular service method = none
exact_path_of MethodMatchType.exact service none = none
exact_path_of MethodMatchType.exact service (some method) = some (b'/' ∷ service ++ b'/' ∷ method)

-- `MethodMatch::exact_path`.
abbrev pub exact_path : MethodMatch → Option Str
exact_path m = exact_path_of m.match_type m.service m.method

pub record GrpcRouteMatch : Type 0 where
  pub method : Option MethodMatch
  pub headers : List HeaderMatch

pub record GrpcRouteRule : Type 0 where
  pub name : Option Str
  pub matches : List GrpcRouteMatch
  pub backends : List WeightedBackend
  pub filters : List RouteFilter
  pub programmed : Bool

pub record GrpcRouteState : Type 0 where
  pub namespace : Str
  pub name : Str
  pub generation : I64
  pub hostnames : List HostnameMatch
  pub rules : List GrpcRouteRule
  pub parent_refs : List ParentRef
  pub programmed : Bool
