-- ===== src/Ir/FromConfig/Lookup.antt =====
-- A request against a table compiled from the configuration: which route of the file answers it.
use mathlib.Core.List.{Memᴰ}
use mathlib.Core.Option
use mathlib.Core.Path.{subst}
use proxy.Common.{
  singleton_sound, ℕ, ◌≡◌, refl, ◌⊎◌, inl, inr, Bool, true, not, ◌&&◌, Option, none, some, is_some,
  List, [], ◌∷◌, map, if◌then◌else◌, arith, length,
}
use proxy.Common.Text.{Str}
use proxy.Config.{RedirectRule, PathRoute, RouteConfig}
use proxy.Ir.{StaticFileAction, RequestMatch, Rule, HostRoute}
use proxy.Compile.Types.{
  TerminalAction, RequestStage, CompiledPlan, UpstreamAction, ArcPlan, CompiledRouteTable, ok,
}
use proxy.Compile.Plan.{compile_plan, compile_request_filter}
use proxy.Compile.Request.{Regex, Headers, ir_hostname_matches, request_matches}
use proxy.Compile.Host.Plans.{IsPlanOf}
use proxy.Compile.Host.Candidates.{PathFits}
use proxy.Compile.Table.{compile_table, table_lookup}
use proxy.Compile.Table.Routing.{table_lookup_sound}
use proxy.Ir.PathRoutes.{
  weighted, path_match, request_match, request_filters, path_action, redirect_action,
}
use proxy.Ir.FromConfig.{
  static_action, host_rules, parse_host_prefix, path_rule, catch_all, static_rule, host_route,
  from_route_configs,
}
use proxy.Ir.FromConfig.Rules.{hosts-mem, host_rules-mem}

-- Whether requests of a path route go to a backend.
abbrev pub forwards : PathRoute → Bool
forwards pr = not pr.gateway_api_unprogrammed && not (is_some pr.redirect) && not pr.deny

abbrev answer : ℕ → List RequestStage
answer status = RequestStage.terminal (TerminalAction.fixed_response status [] none) ∷ []

abbrev auth_stages : Option Str → List Str → List RequestStage
auth_stages none capture = []
auth_stages (some url) capture =
    RequestStage.auth (record { url = url; capture_headers = capture }) ∷ []

abbrev redirect_stages : Option RedirectRule → List RequestStage → List RequestStage
redirect_stages (some r) stages =
    RequestStage.terminal (TerminalAction.redirect (redirect_action r)) ∷ []
redirect_stages none stages = stages

-- The stages that a path route asks for, the strongest first.
abbrev pub stages_for : PathRoute → List RequestStage
stages_for pr =
    if pr.gateway_api_unprogrammed
    then answer 500
    else redirect_stages pr.redirect
        (if pr.deny then answer 403 else auth_stages pr.auth_request pr.auth_capture_headers)

-- A plan that does what a path route says.
pub record IsPathPlan (pr : PathRoute) (plan : CompiledPlan) : Type 0 where
  pub upstream_iff : is_some plan.upstream ≡ forwards pr
  pub stages : plan.request_stages ≡ stages_for pr
  pub mutations :
      plan.upstream_request_mutations
      ≡ (if forwards pr then map compile_request_filter (request_filters pr) else [])

path_rule-IsPathPlan :
    (h : HostRoute) (route : RouteConfig) (n : ℕ) (pr : PathRoute) (m : RequestMatch)
    (plan : CompiledPlan)
    → IsPlanOf h (path_rule route n pr) m plan
    → IsPathPlan pr plan
unfolding compile_plan path_action
path_rule-IsPathPlan h route n pr m plan e = record {
  upstream_iff = ground (arith, e);
  stages = ground (arith, e);
  mutations = ground (arith, e);
}

-- A plan of the catch-all goes to the backend of the route, at weight 1.
pub record IsCatchAllPlan (route : RouteConfig) (plan : CompiledPlan) : Type 0 where
  pub no_paths : route.paths ≡ []
  pub to_backend :
      Option.map (λ (u : UpstreamAction). u.backends) plan.upstream
      ≡ some (weighted route.backend 1 ∷ [])
  pub stages : plan.request_stages ≡ []

-- A plan that serves files below the static root, and does not forward.
pub record IsStaticPlan (route : RouteConfig) (plan : CompiledPlan) : Type 0 where
  pub root : Str
  pub configured : route.static_root ≡ some root
  pub stays_here : plan.upstream ≡ none
  pub files : StaticFileAction
  pub stages : plan.request_stages ≡ RequestStage.static_files files ∷ []
  pub rooted : files.root ≡ root

catch_all-IsCatchAllPlan :
    (h : HostRoute) (route : RouteConfig) (m : RequestMatch) (plan : CompiledPlan)
    → route.paths ≡ []
    → IsPlanOf h (catch_all route) m plan
    → IsCatchAllPlan route plan
unfolding compile_plan catch_all
catch_all-IsCatchAllPlan h route m plan p e = record {
  no_paths = p;
  to_backend = ground (arith, e);
  stages = ground (arith, e);
}

static_rule-stages :
    (h : HostRoute) (route : RouteConfig) (n : ℕ) (root : Str) (m : RequestMatch)
    (plan : CompiledPlan)
    → IsPlanOf h (static_rule route n root) m plan
    → (plan.upstream ≡ none)
      × (plan.request_stages ≡ RequestStage.static_files (static_action route root) ∷ [])
unfolding compile_plan static_rule
static_rule-stages h route n root m plan e = (ground (arith, e), ground (arith, e))

-- Where the plan of a request can come from.
abbrev pub Answers : Regex → RouteConfig → Str → Str → Headers → Option Str → CompiledPlan → Type 0
Answers re route path method headers query plan =
    ((pr : PathRoute) × Memᴰ pr route.paths
      × PathFits re (some (path_match pr)) path
      × (request_matches re method headers query (request_match pr) ≡ true)
      × IsPathPlan pr plan)
    ⊎ (IsCatchAllPlan route plan ⊎ IsStaticPlan route plan)

Rule-Answers :
    (re : Regex) (route : RouteConfig) (path method : Str) (headers : Headers) (query : Option Str)
    (plan : CompiledPlan) (h : HostRoute) (r : Rule) (m : RequestMatch)
    → Memᴰ r (host_rules route)
    → Memᴰ m r.matches
    → IsPlanOf h r m plan
    → PathFits re m.path path
    → request_matches re method headers query m ≡ true
    → Answers re route path method headers query plan
Rule-Answers re route path method headers query plan h r m mr mm is fits ok_ =
    elim (host_rules-mem route r mr) [
      | inl (pr, mp, n, e) ↦
          let s : m ≡ request_match pr =
            singleton_sound (subst (λ (q : Rule). Memᴰ m q.matches) e mm) in
          inl (
            pr,
            mp,
            unfold request_match in subst (λ (q : RequestMatch). PathFits re q.path path) s fits,
            subst (λ q. request_matches re method headers query q ≡ true) s ok_,
            path_rule-IsPathPlan h route n pr m plan (subst (λ q. IsPlanOf h q m plan) e is),
          )
      | inr (inl (p, e)) ↦
          inr (
            inl (catch_all-IsCatchAllPlan h route m plan p (subst (λ q. IsPlanOf h q m plan) e is)))
      | inr (inr (root, c, e)) ↦
          let (u, st) =
            static_rule-stages h route (length route.paths) root m plan
              (subst (λ q. IsPlanOf h q m plan) e is) in
          inr (
            inr (record {
              root = root;
              configured = c;
              stays_here = u;
              files = static_action route root;
              stages = st;
              rooted = refl;
            }))
    ]

-- End to end: a plan found in a table compiled from the configuration is that of a route of the file
-- whose host prefix accepts the host name; it is the plan of one of its path routes, whose path,
-- method, headers and query accept the request, or of its backend where it has no path routes, or
-- serves its static root. A path route forwards only if it is programmed, does not redirect and does
-- not deny, and otherwise answers 500, redirects or answers 403, in this order.
pub configured_lookup :
    (iter : List (Str × ℕ) → List (Str × ℕ)) (re : Regex) (routes : List RouteConfig)
    (table : CompiledRouteTable) (host : Str) (port : ℕ) (path method : Str) (headers : Headers)
    (query : Option Str) (p : ArcPlan)
    → compile_table iter (from_route_configs routes) ≡ ok table
    → table_lookup re table host port path method headers query ≡ some p
    → (route : RouteConfig) × Memᴰ route routes
      × (ir_hostname_matches host (parse_host_prefix route.host_prefix) ≡ true)
      × Answers re route path method headers query p.plan
unfolding host_route
configured_lookup iter re routes table host port path method headers query p c f =
    let (h, mh, fits, acc, rule, mr, m, mm, is, pf, rf) =
      table_lookup_sound iter (from_route_configs routes) table host port re path method headers
        query p c f in
    let (route, k, e) = hosts-mem routes h mh in
    (
      route,
      k,
      subst (λ (q : HostRoute). ir_hostname_matches host q.hostname ≡ true) e fits,
      Rule-Answers re route path method headers query p.plan h rule m
          (subst (λ (q : HostRoute). Memᴰ rule q.rules) e mr) mm is pf rf,
    )
