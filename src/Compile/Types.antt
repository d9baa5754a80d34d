-- ===== src/Compile/Types.antt =====
-- src/ir/compile.rs: the compiled forms that the compiler builds and the proxy reads.
use proxy.Common.{ℕ, Bool, Option, List}
use proxy.Common.Text.{Str}
use proxy.Ir.{
  Protocol, HostnameMatch, RequestMatch, PathRewrite, CorsConfig, WeightedBackend, CachePolicy,
  BodyRewrite, AuthConfig, RewriteRule, Fraction, RedirectAction, StaticFileAction, L4Match,
  L4Action,
}

pub data TerminalAction : Type 0 where
  redirect : RedirectAction → TerminalAction
  fixed_response : ℕ → List (Str × Str) → Option Str → TerminalAction
  not_found : TerminalAction

pub data RequestStage : Type 0 where
  auth : AuthConfig → RequestStage
  cors_preflight : CorsConfig → RequestStage
  static_files : StaticFileAction → RequestStage
  terminal : TerminalAction → RequestStage

pub data UpstreamRequestMutation : Type 0 where
  set_header : Str → Str → UpstreamRequestMutation
  add_header : Str → Str → UpstreamRequestMutation
  remove_header : Str → UpstreamRequestMutation
  strip_prefix : Str → UpstreamRequestMutation
  prepend_path : Str → UpstreamRequestMutation
  rewrite_path : PathRewrite → UpstreamRequestMutation
  rewrite_hostname : Str → UpstreamRequestMutation

pub data ResponseMutation : Type 0 where
  set_header : Str → Str → ResponseMutation
  add_header : Str → Str → ResponseMutation
  remove_header : Str → ResponseMutation
  cors : CorsConfig → ResponseMutation

pub record UpstreamAction : Type 0 where
  pub backends : List WeightedBackend
  pub timeout : Option ℕ
  pub mirror : List Str
  pub mirror_fractions : List (Option Fraction)
  pub backend_request_mutations : List (List UpstreamRequestMutation)

pub record CompiledPlan : Type 0 where
  pub precedence : ℕ  -- u64
  pub rule_order : ℕ
  pub gateway_api : Bool
  pub disable_secure_redirection : Bool
  pub listener_hostname : Option HostnameMatch
  pub matches : RequestMatch
  pub request_stages : List RequestStage
  pub upstream : Option UpstreamAction
  pub upstream_request_mutations : List UpstreamRequestMutation
  pub response_mutations : List ResponseMutation
  pub body_rewrites : List BodyRewrite
  pub cache : Option CachePolicy
  pub websocket : Bool
  pub client_cert_id : Option Str

-- An `Arc<CompiledPlan>`: the address of its allocation, and the plan.
pub record ArcPlan : Type 0 where
  pub as_ptr : ℕ
  pub plan : CompiledPlan

pub data DiscriminatorKind : Type 0 where
  by_method : List (Str × List ArcPlan) → List ArcPlan → DiscriminatorKind
  by_header : Str → List (Str × List ArcPlan) → List ArcPlan → DiscriminatorKind
  by_query : Str → List (Str × List ArcPlan) → List ArcPlan → DiscriminatorKind

pub record Discriminator : Type 0 where
  pub kind : DiscriminatorKind
  pub fallback : List ArcPlan

-- The plans of one node, beside its children.
pub record NodePlans : Type 0 where
  pub prefix_plans : List ArcPlan
  pub exact_plans : List ArcPlan
  pub discriminator : Option Discriminator

-- `HashMap<Arc<str>, PathTrieNode>` is `Children`.
mutual
  pub data PathTrieNode : Type 0 where
    trie_node : Children → NodePlans → PathTrieNode

  pub data Children : Type 0 where
    no_child : Children
    child : Str → PathTrieNode → Children → Children

pub record HostNode : Type 0 where
  pub hostname : HostnameMatch
  pub listener_ids : List Str
  pub listener_hostname : Option HostnameMatch
  pub listener_port : Option ℕ
  pub gateway_api : Bool
  pub disable_secure_redirection : Bool
  pub path_trie : PathTrieNode
  pub exact_paths : List (Str × List ArcPlan)
  pub regex_plans : List ArcPlan
  pub static_rewrites : List RewriteRule

pub record CompiledRouteTable : Type 0 where
  pub exact_hosts : List (Str × List HostNode)
  pub wildcard_hosts : List (HostnameMatch × HostNode)
  pub any_host : Option HostNode
  pub acme_routes : List (Str × Str)

pub data CompiledTlsConfig : Type 0 where
  registry : Str → CompiledTlsConfig
  files : Str → Str → CompiledTlsConfig

pub record CompiledFrontendValidation : Type 0 where
  pub ca_bundle_pem : Str
  pub allow_insecure_fallback : Bool

pub record CompiledListener : Type 0 where
  pub id : Str
  pub bind_addr : Str
  pub protocol : Protocol
  pub tls : Option CompiledTlsConfig
  pub redirect_http_to_https : Bool
  pub frontend_validation : Option CompiledFrontendValidation

pub record CompiledL4Route : Type 0 where
  pub listener_id : Str
  pub listener_hostname : HostnameMatch
  pub match_ : L4Match
  pub action : L4Action
  pub priority : ℕ  -- i64, always 0

pub record CompiledL4Config : Type 0 where
  pub listeners : List CompiledListener
  pub tcp_routes : List CompiledL4Route
  pub udp_routes : List CompiledL4Route
  pub tls_routes : List CompiledL4Route
  pub https_routes : List CompiledL4Route
  pub http_routes : List CompiledL4Route

-- `CompileError`, with its message.
pub data CompileError : Type 0 where
  message : Str → CompileError

pub data Result {ℓ} (A : Type ℓ) : Type ℓ where
  ok : A → Result A
  err : CompileError → Result A

infixl 5 ◌>>=◌
abbrev pub ◌>>=◌ {ℓ κ} : {A : Type ℓ} {B : Type κ} → Result A → (A → Result B) → Result B
ok a >>= f = f a
err e >>= f = err e
