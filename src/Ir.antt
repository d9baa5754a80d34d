-- ===== src/Ir.antt =====
-- src/ir/mod.rs: the canonical routing model that every configuration source produces. `Arc<str>`
-- is its bytes, a `Duration` its nanoseconds, an unsigned field a number.
pub mod PathRoutes
pub mod FromConfig
use proxy.Common.{ℕ, Bool, Option, List, if◌then◌else◌, unwrap_or}
use proxy.Common.Text.{Str, codes, str_eq}

pub data Protocol : Type 0 where
  http https tcp udp tls : Protocol

pub data TlsConfig : Type 0 where
  registry : Str → TlsConfig
  files : Str → Str → TlsConfig

pub record FrontendValidation : Type 0 where
  pub ca_bundle_pem : Str
  pub allow_insecure_fallback : Bool

pub record ListenerConfig : Type 0 where
  pub id : Str
  pub bind_addr : Str
  pub protocol : Protocol
  pub tls : Option TlsConfig
  pub redirect_http_to_https : Bool
  pub frontend_validation : Option FrontendValidation

pub data TlsCertSource : Type 0 where
  files : Str → Str → TlsCertSource
  secret : Str → Str → TlsCertSource

pub record TlsCertConfig : Type 0 where
  pub id : Str
  pub source : TlsCertSource

pub data HostnameMatch : Type 0 where
  exact : Str → HostnameMatch
  prefix : Str → HostnameMatch
  wildcard : Str → HostnameMatch
  any : HostnameMatch

pub data PathMatch : Type 0 where
  prefix : Str → PathMatch
  exact : Str → PathMatch
  regex : Str → PathMatch

pub data HeaderMatchValue : Type 0 where
  exact : Str → HeaderMatchValue
  regex : Str → HeaderMatchValue
  present : HeaderMatchValue
  absent : HeaderMatchValue

pub record HeaderMatch : Type 0 where
  pub name : Str
  pub value : HeaderMatchValue

pub data QueryParamMatchValue : Type 0 where
  exact : Str → QueryParamMatchValue
  regex : Str → QueryParamMatchValue

pub record QueryParamMatch : Type 0 where
  pub name : Str
  pub value : QueryParamMatchValue

pub record RequestMatch : Type 0 where
  pub path : Option PathMatch
  pub method : Option Str
  pub headers : List HeaderMatch
  pub query_params : List QueryParamMatch

pub data PathRewrite : Type 0 where
  full_replace : Str → PathRewrite
  prefix_replace : Str → Str → PathRewrite

-- `PathRewrite::with_matched_prefix`.
pub with_matched_prefix : PathRewrite → Option Str → PathRewrite
with_matched_prefix (prefix_replace pre replacement) matched =
    if str_eq pre (codes "/")
    then prefix_replace (unwrap_or pre matched) replacement
    else prefix_replace pre replacement
with_matched_prefix (full_replace p) matched = full_replace p

pub data RequestFilter : Type 0 where
  set_header : Str → Str → RequestFilter
  add_header : Str → Str → RequestFilter
  remove_header : Str → RequestFilter
  strip_prefix : Str → RequestFilter
  prepend_path : Str → RequestFilter
  rewrite_path : PathRewrite → RequestFilter
  rewrite_hostname : Str → RequestFilter

-- `max_age` is an i32: its sign and magnitude are not read by the modelled code.
pub data I32 : Type 0 where
  pos : ℕ → I32
  negsuc : ℕ → I32

pub record CorsConfig : Type 0 where
  pub allow_origins : List Str
  pub allow_methods : List Str
  pub allow_headers : List Str
  pub expose_headers : List Str
  pub max_age : Option I32
  pub allow_credentials : Bool

pub data ResponseFilter : Type 0 where
  set_header : Str → Str → ResponseFilter
  add_header : Str → Str → ResponseFilter
  remove_header : Str → ResponseFilter
  cors : CorsConfig → ResponseFilter

pub data BackendProtocol : Type 0 where
  http h2c https web_socket web_socket_secure : BackendProtocol

pub record BackendTlsConfig : Type 0 where
  pub sni : Str
  pub verify_hostname : Bool
  pub alternative_cn : Option Str
  pub client_cert_id : Option Str
  pub ca_bundle_pem : Option Str
  pub subject_alt_names : List Str

pub record WeightedBackend : Type 0 where
  pub backend : Str
  pub weight : ℕ
  pub request_filters : List RequestFilter
  pub protocol : BackendProtocol
  pub tls : Option BackendTlsConfig

pub record CachePolicy : Type 0 where
  pub enabled : Bool
  pub default_ttl_secs : ℕ
  pub respect_cache_headers : Bool
  pub stale_while_revalidate_secs : ℕ
  pub max_file_size : ℕ

pub record BodyRewrite : Type 0 where
  pub find : Str
  pub replace : Str
  pub types : List Str

pub record AuthConfig : Type 0 where
  pub url : Str
  pub capture_headers : List Str

pub record RewriteRule : Type 0 where
  pub pattern_text : Str
  pub target : Str

pub record Fraction : Type 0 where
  pub numerator : ℕ
  pub denominator : ℕ

pub record RouteAction : Type 0 where
  pub backends : List WeightedBackend
  pub timeout : Option ℕ
  pub request_filters : List RequestFilter
  pub response_filters : List ResponseFilter
  pub mirror_backends : List Str
  pub mirror_fractions : List (Option Fraction)
  pub cache : Option CachePolicy
  pub body_rewrites : List BodyRewrite
  pub auth : Option AuthConfig
  pub websocket : Bool
  pub disable_https_redirect : Bool
  pub client_cert_id : Option Str

pub record RedirectAction : Type 0 where
  pub status_code : ℕ
  pub scheme : Option Str
  pub hostname : Option Str
  pub port : Option ℕ
  pub path : Option PathRewrite

pub record StaticFileAction : Type 0 where
  pub root : Str
  pub fallback : Option Str
  pub rewrites : List RewriteRule
  pub extra_headers : List (Str × Str)

pub record FixedResponseAction : Type 0 where
  pub status : ℕ
  pub headers : List (Str × Str)
  pub body : Option Str

pub data Action : Type 0 where
  route : RouteAction → Action
  redirect : RedirectAction → Action
  static_files : StaticFileAction → Action
  fixed_response : FixedResponseAction → Action

pub record Rule : Type 0 where
  pub matches : List RequestMatch
  pub action : Action
  pub rule_order : ℕ

pub record HostRoute : Type 0 where
  pub hostname : HostnameMatch
  pub listener_ids : List Str
  pub listener_hostname : Option HostnameMatch
  pub listener_port : Option ℕ
  pub gateway_api : Bool
  pub disable_secure_redirection : Bool
  pub rules : List Rule

pub data L4Match : Type 0 where
  any : L4Match
  sni : HostnameMatch → L4Match

pub data L4Action : Type 0 where
  tcp_relay : List WeightedBackend → L4Action
  udp_relay : List WeightedBackend → L4Action
  tls_passthrough : List WeightedBackend → L4Action
  tls_terminate : List WeightedBackend → L4Action
  terminate_and_http : Str → L4Action
  http_relay : Str → L4Action

pub record L4Route : Type 0 where
  pub listener_id : Str
  pub listener_hostname : HostnameMatch
  pub match_ : L4Match
  pub action : L4Action

pub record RouteTable : Type 0 where
  pub listeners : List ListenerConfig
  pub hosts : List HostRoute
  pub acme_routes : List (Str × Str)
  pub l4_routes : List L4Route
  pub tls_certs : List TlsCertConfig
