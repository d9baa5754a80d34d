-- ===== src/Gateway/ToIr/Translation.antt =====
-- What an HTTPRoute's rules and a GRPCRoute's have in common: how one becomes rules of the table.
use mathlib.Core.Option
use proxy.Common.{
  ℕ, ◌≡◌, refl, inl, inr, Bool, true, false, ◌||◌, Option, none, some, is_some, List, [], ◌∷◌, map,
  any, if◌then◌else◌, arith, Option-cases,
}
use proxy.Common.Text.{Str}
use proxy.Ir
use proxy.Compile.Types.{TerminalAction, RequestStage, CompiledPlan, UpstreamAction}
use proxy.Compile.Plan.{compile_plan}
use proxy.Compile.Host.Plans.{IsPlanOf}
use proxy.Gateway.Model.Routing.{RouteFilter, HttpRouteRule, GrpcRouteRule}
use proxy.Gateway.FromModel.{request_match, weighted_backend}
use proxy.Gateway.Http.{
  prefix_of, redirect_action, last_redirect, matches_or_default, build_ir_rule,
}
use proxy.Gateway.Grpc.{grpc_request_match, build_ir_rule_from_grpc}

-- What the table's rules read of a route's rule.
pub record Translation (A : Type 0) : Type 0 where
  pub programmed : A → Bool
  pub redirects : A → Bool
  pub matches : A → List Ir.RequestMatch
  pub build : A → Ir.RequestMatch → ℕ → Ir.Rule
  pub redirect : A → Ir.RequestMatch → Option Ir.RedirectAction
  pub backends : A → List Ir.WeightedBackend
  pub client_cert_id : Option Str

abbrev pub is_redirect : RouteFilter → Bool
is_redirect (RouteFilter.request_redirect r) = true
is_redirect _ = false

abbrev pub http_translation : Option Str → Translation HttpRouteRule
http_translation cert = record {
  programmed = λ r. r.programmed;
  redirects = λ r. any is_redirect r.filters;
  matches = λ r. matches_or_default request_match r.matches;
  build = λ r m n. build_ir_rule r m n cert;
  redirect = λ r m. last_redirect (prefix_of m.path) r.filters none;
  backends = λ r. map weighted_backend r.backends;
  client_cert_id = cert;
}

-- A GRPCRoute has no redirects.
abbrev pub grpc_translation : Option Str → Translation GrpcRouteRule
grpc_translation cert = record {
  programmed = λ r. r.programmed;
  redirects = λ r. false;
  matches = λ r. matches_or_default grpc_request_match r.matches;
  build = λ r m n. build_ir_rule_from_grpc r m n cert;
  redirect = λ r m. none;
  backends = λ r. map weighted_backend r.backends;
  client_cert_id = cert;
}

-- The stages of a rule that is not programmed, which answers 500, and of a redirect.
abbrev pub unprogrammed_stages : List RequestStage
unprogrammed_stages = RequestStage.terminal (TerminalAction.fixed_response 500 [] none) ∷ []

abbrev pub redirect_stages : Option Ir.RedirectAction → List RequestStage
redirect_stages none = []
redirect_stages (some r) = RequestStage.terminal (TerminalAction.redirect r) ∷ []

-- The plan of a rule that goes to these backends, unless it redirects.
pub record IsPlanTo (redirects : Bool) (redirect : Option Ir.RedirectAction)
    (backends : List Ir.WeightedBackend) (cert : Option Str) (index : ℕ) (plan : CompiledPlan)
    : Type 0 where
  pub goes_to :
      Option.map (λ (u : UpstreamAction). u.backends) plan.upstream
      ≡ (if redirects then none else some backends)
  pub stages : plan.request_stages ≡ redirect_stages redirect
  pub cert_of : plan.client_cert_id ≡ (if redirects then none else cert)
  pub order : plan.rule_order ≡ index

-- What the two translations promise.
pub record IsTranslation {A : Type 0} (t : Translation A) : Type 0 where
  pub has_match :
      (rule : A) → (m : Ir.RequestMatch) × (ms : List Ir.RequestMatch) × (t.matches rule ≡ m ∷ ms)
  pub single : (rule : A) (m : Ir.RequestMatch) (n : ℕ) → (t.build rule m n).matches ≡ m ∷ []
  pub plan_to :
      (h : Ir.HostRoute) (rule : A) (m : Ir.RequestMatch) (n : ℕ) (plan : CompiledPlan)
      → IsPlanOf h (t.build rule m n) m plan
      → IsPlanTo (t.redirects rule) (t.redirect rule m) (t.backends rule) t.client_cert_id n plan

has_match_or_default :
    {A : Type 0} (f : A → Ir.RequestMatch) (ms : List A)
    → (m : Ir.RequestMatch) × (rest : List Ir.RequestMatch) × (matches_or_default f ms ≡ m ∷ rest)
has_match_or_default f [] = (_, _, refl)
has_match_or_default f (m ∷ ms) = (_, _, refl)

last_redirect-is_some :
    (matched : Option Str) (fs : List RouteFilter) (o : Option Ir.RedirectAction)
    → is_some (last_redirect matched fs o) ≡ (is_some o || any is_redirect fs)
unfolding last_redirect
last_redirect-is_some matched [] o = ground arith
last_redirect-is_some matched (RouteFilter.request_redirect r ∷ fs) o =
    ground (arith, last_redirect-is_some matched fs (some (redirect_action matched r)))
last_redirect-is_some matched (f ∷ fs) o = last_redirect-is_some matched fs o

http_plan-IsPlanTo :
    (cert : Option Str) (h : Ir.HostRoute) (rule : HttpRouteRule) (m : Ir.RequestMatch) (n : ℕ)
    (plan : CompiledPlan)
    → IsPlanOf h (build_ir_rule rule m n cert) m plan
    → IsPlanTo
        (any is_redirect rule.filters)
        (last_redirect (prefix_of m.path) rule.filters none)
        (map weighted_backend rule.backends)
        cert
        n
        plan
unfolding compile_plan build_ir_rule
http_plan-IsPlanTo cert h rule m n plan e =
    let s = last_redirect-is_some (prefix_of m.path) rule.filters none in
    elim (Option-cases (last_redirect (prefix_of m.path) rule.filters none)) [
      | inl k ↦
          let none_there : any is_redirect rule.filters ≡ false = ground (arith, s, k) in
          rw (none_there, k) (ground (arith, rw k at e))
      | inr (r, k) ↦
          let there : any is_redirect rule.filters ≡ true = ground (arith, s, k) in
          rw (there, k) (ground (arith, rw k at e))
    ]

grpc_plan-IsPlanTo :
    (cert : Option Str) (h : Ir.HostRoute) (rule : GrpcRouteRule) (m : Ir.RequestMatch) (n : ℕ)
    (plan : CompiledPlan)
    → IsPlanOf h (build_ir_rule_from_grpc rule m n cert) m plan
    → IsPlanTo false none (map weighted_backend rule.backends) cert n plan
unfolding compile_plan build_ir_rule_from_grpc
grpc_plan-IsPlanTo cert h rule m n plan e = ground (arith, e)

pub http_translation-IsTranslation : (cert : Option Str) → IsTranslation (http_translation cert)
http_translation-IsTranslation cert = record {
  has_match = λ rule. has_match_or_default request_match rule.matches;
  single = λ rule m n. unfold build_ir_rule in refl;
  plan_to = http_plan-IsPlanTo cert;
}

pub grpc_translation-IsTranslation : (cert : Option Str) → IsTranslation (grpc_translation cert)
grpc_translation-IsTranslation cert = record {
  has_match = λ rule. has_match_or_default grpc_request_match rule.matches;
  single = λ rule m n. unfold build_ir_rule_from_grpc in refl;
  plan_to = grpc_plan-IsPlanTo cert;
}
