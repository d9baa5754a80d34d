-- ===== src/Compile/Plan.antt =====
-- src/ir/compile.rs: a rule and one of its matches become a plan, and the rule's precedence.
pub mod Fields
pub mod Precedence
use Prim.Native.Nat.{bit_or}
use proxy.Common.{
  ℕ, ◌*◌, ◌%◌, ◌^◌, Bool, false, Option, none, some, List, [], ◌∷◌, map, length, filter_map, max_of,
  is_some, if◌then◌else◌,
}
use proxy.Common.Text.{Str}
use proxy.Ir.{
  HostnameMatch, PathMatch, RequestMatch, RequestFilter, ResponseFilter, WeightedBackend,
  AuthConfig, RouteAction, FixedResponseAction, Action, Rule,
}
use proxy.Compile.Types.{
  TerminalAction, RequestStage, UpstreamRequestMutation, ResponseMutation, UpstreamAction,
  CompiledPlan, Result, ok,
}

unfoldable pub compile_request_filter : RequestFilter → UpstreamRequestMutation
compile_request_filter (RequestFilter.set_header n v) = UpstreamRequestMutation.set_header n v
compile_request_filter (RequestFilter.add_header n v) = UpstreamRequestMutation.add_header n v
compile_request_filter (RequestFilter.remove_header n) = UpstreamRequestMutation.remove_header n
compile_request_filter (RequestFilter.strip_prefix p) = UpstreamRequestMutation.strip_prefix p
compile_request_filter (RequestFilter.prepend_path p) = UpstreamRequestMutation.prepend_path p
compile_request_filter (RequestFilter.rewrite_path p) = UpstreamRequestMutation.rewrite_path p
compile_request_filter (RequestFilter.rewrite_hostname h) =
    UpstreamRequestMutation.rewrite_hostname h

unfoldable pub compile_response_filter : ResponseFilter → ResponseMutation
compile_response_filter (ResponseFilter.set_header n v) = ResponseMutation.set_header n v
compile_response_filter (ResponseFilter.add_header n v) = ResponseMutation.add_header n v
compile_response_filter (ResponseFilter.remove_header n) = ResponseMutation.remove_header n
compile_response_filter (ResponseFilter.cors c) = ResponseMutation.cors c

-- The `let mut` values of `compile_plan` before its `match`.
abbrev bare_plan : Rule → ℕ → RequestMatch → Bool → Bool → Option HostnameMatch → CompiledPlan
bare_plan rule precedence m gateway_api disable_secure_redirection listener_hostname = record {
  precedence = precedence;
  rule_order = rule.rule_order;
  gateway_api = gateway_api;
  disable_secure_redirection = disable_secure_redirection;
  listener_hostname = listener_hostname;
  matches = m;
  request_stages = [];
  upstream = none;
  upstream_request_mutations = [];
  response_mutations = [];
  body_rewrites = [];
  cache = none;
  websocket = false;
  client_cert_id = none;
}

abbrev auth_stages : Option AuthConfig → List RequestStage
auth_stages none = []
auth_stages (some auth) = RequestStage.auth auth ∷ []

abbrev backend_mutations : WeightedBackend → List UpstreamRequestMutation
backend_mutations b = map compile_request_filter b.request_filters

-- The `match` on the rule's action.
apply_action : Action → CompiledPlan → CompiledPlan
apply_action (Action.route ra) plan = record plan {
  upstream_request_mutations = map compile_request_filter ra.request_filters;
  response_mutations = map compile_response_filter ra.response_filters;
  body_rewrites = ra.body_rewrites;
  cache = ra.cache;
  websocket = ra.websocket;
  request_stages = auth_stages ra.auth;
  upstream = some (record {
    backends = ra.backends;
    timeout = ra.timeout;
    mirror = ra.mirror_backends;
    mirror_fractions = ra.mirror_fractions;
    backend_request_mutations = map backend_mutations ra.backends;
  });
  client_cert_id = ra.client_cert_id;
}
apply_action (Action.redirect r) plan = record plan {
  request_stages = RequestStage.terminal (TerminalAction.redirect r) ∷ [];
}
apply_action (Action.static_files sfa) plan = record plan {
  request_stages = RequestStage.static_files sfa ∷ [];
}
apply_action (Action.fixed_response fixed) plan = record plan {
  request_stages =
      RequestStage.terminal (TerminalAction.fixed_response fixed.status fixed.headers fixed.body)
      ∷ [];
}

unfoldable pub compile_plan :
    Rule → ℕ → RequestMatch → Bool → Bool → Option HostnameMatch → Result CompiledPlan
unfolding apply_action compile_request_filter compile_response_filter
compile_plan rule precedence m gateway_api disable_secure_redirection listener_hostname = ok (
    apply_action rule.action
      (bare_plan rule precedence m gateway_api disable_secure_redirection listener_hostname))

abbrev pub path_len : PathMatch → ℕ
path_len (PathMatch.prefix s) = length s
path_len (PathMatch.exact s) = length s
path_len (PathMatch.regex s) = length s

abbrev pub method_specificity : RequestMatch → ℕ
method_specificity m = if is_some m.method then 1 else 0

-- `x << k` on a u64.
abbrev pub shl64 : ℕ → ℕ → ℕ
shl64 x k = x * 2 ^ k % 2 ^ 64

-- The four maxima of a rule's matches, packed in one u64.
unfoldable pub pack : ℕ → ℕ → ℕ → ℕ → ℕ
pack path method headers query =
    bit_or (bit_or (bit_or (shl64 path 48) (shl64 method 32)) (shl64 headers 16)) query

unfoldable pub compute_precedence : Rule → ℕ
compute_precedence rule =
    pack (max_of path_len (filter_map (λ (m : RequestMatch). m.path) rule.matches))
      (max_of method_specificity rule.matches)
      (max_of (λ (m : RequestMatch). length m.headers) rule.matches)
      (max_of (λ (m : RequestMatch). length m.query_params) rule.matches)
