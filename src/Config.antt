-- ===== src/Config.antt =====
-- src/config.rs: the routes of the configuration file, after it is read. A `String` is its bytes.
use proxy.Common.{ℕ, Bool, Option, List}
use proxy.Common.Text.{Str}
use proxy.Ir.{I32}

pub record HeaderRule : Type 0 where
  pub name : Str
  pub value : Str

pub data HeaderMatchValueConfig : Type 0 where
  exact : Str → HeaderMatchValueConfig
  regex : Str → HeaderMatchValueConfig
  present : HeaderMatchValueConfig
  absent : HeaderMatchValueConfig

pub record HeaderMatchConfig : Type 0 where
  pub name : Str
  pub value : HeaderMatchValueConfig

pub data QueryParamMatchValueConfig : Type 0 where
  exact : Str → QueryParamMatchValueConfig
  regex : Str → QueryParamMatchValueConfig

pub record QueryParamMatchConfig : Type 0 where
  pub name : Str
  pub value : QueryParamMatchValueConfig

pub record WeightedBackendConfig : Type 0 where
  pub backend : Str
  pub weight : ℕ

pub record RedirectRule : Type 0 where
  pub status_code : ℕ
  pub scheme : Option Str
  pub hostname : Option Str
  pub port : Option ℕ
  pub path : Option Str
  pub path_prefix : Option Str

pub record CorsConfig : Type 0 where
  pub allow_origins : List Str
  pub allow_methods : List Str
  pub allow_headers : List Str
  pub expose_headers : List Str
  pub max_age : Option I32
  pub allow_credentials : Bool

pub record RewriteRule : Type 0 where
  pub pattern_text : Str
  pub target : Str

pub record BodyRewrite : Type 0 where
  pub find : Str
  pub replace : Str
  pub types : List Str

pub record CacheConfig : Type 0 where
  pub enabled : Bool
  pub default_ttl_secs : ℕ
  pub respect_cache_headers : Bool
  pub stale_while_revalidate_secs : ℕ
  pub max_file_size : ℕ

pub record PathRoute : Type 0 where
  pub prefix : Str
  pub backend : Str
  pub strip_prefix : Bool
  pub websocket : Bool
  pub auth_request : Option Str
  pub auth_capture_headers : List Str
  pub upstream_path_prefix : Option Str
  pub path_rewrite_full : Option Str
  pub hostname_rewrite : Option Str
  pub timeout_secs : Option ℕ
  pub timeout_ms : Option ℕ
  pub mirror_backends : List Str
  pub cors : Option CorsConfig
  pub deny : Bool
  pub gateway_api_unprogrammed : Bool
  pub methods : List Str
  pub weighted_backends : List WeightedBackendConfig
  pub redirect : Option RedirectRule
  pub header_matches : List HeaderMatchConfig
  pub query_param_matches : List QueryParamMatchConfig
  pub rule_order : ℕ
  pub path_match_exact : Bool
  pub request_headers : List HeaderRule
  pub request_headers_add : List HeaderRule
  pub request_headers_remove : List Str
  pub response_headers : List HeaderRule
  pub response_headers_add : List HeaderRule
  pub response_headers_remove : List Str

pub record RouteConfig : Type 0 where
  pub host_prefix : Str
  pub backend : Str
  pub websocket : Bool
  pub disable_secure_redirection : Bool
  pub paths : List PathRoute
  pub static_root : Option Str
  pub fallback : Option Str
  pub rewrites : List RewriteRule
  pub body_rewrites : List BodyRewrite
  pub response_headers : List HeaderRule
  pub response_headers_add : List HeaderRule
  pub response_headers_remove : List Str
  pub request_headers : List HeaderRule
  pub request_headers_add : List HeaderRule
  pub request_headers_remove : List Str
  pub cache : Option CacheConfig
  pub cors : Option CorsConfig
  pub timeout_secs : Option ℕ
  pub listener_hostname : Option Str
  pub gateway_api : Bool
