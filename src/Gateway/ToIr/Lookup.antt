-- ===== src/Gateway/ToIr/Lookup.antt =====
-- A request against the table of the reconciled view: which rule of which route answers it.
use mathlib.Core.List.{Memᴰ}
use mathlib.Core.Path.{subst}
use proxy.Common.{
  ℕ, ◌≡◌, refl, sym, ap, ◌∙◌, ◌⊎◌, Bool, true, not, ◌==◌, Option, some, List, [], ◌∷◌, arith,
  &&-split, All, All-Memᴰ,
}
use proxy.Common.Text.{Str, codes}
use proxy.Ir
use proxy.Compile.Types.{CompiledPlan, ArcPlan, CompiledRouteTable, ok}
use proxy.Compile.Request.{Regex, Headers, ir_hostname_matches}
use proxy.Compile.Table.{compile_table, table_lookup, listener_port_matches}
use proxy.Compile.Table.Routing.{table_lookup_sound}
use proxy.Gateway.Hostnames.{HostnameMatch}
use proxy.Gateway.Hostnames.Overlap.{hits}
use proxy.Gateway.Model.{GatewayView}
use proxy.Gateway.Model.View.{ParentRef}
use proxy.Gateway.Model.Routing.{HttpRouteState, GrpcRouteState}
use proxy.Gateway.Effective.{RouteHostnames, EffectiveHostname, compute_effective_hostnames}
use proxy.Gateway.Effective.Sound.{IsOnListener, IsUnattached, compute_effective_hostnames_sound}
use proxy.Gateway.ToIr.{
  GroupKey, hostname_to_prefix, key_of, new_host, http_hostnames, grpc_hostnames,
  translate_view_to_ir,
}
use proxy.Gateway.ToIr.Groups.{Entry, entries}
use proxy.Gateway.ToIr.Origin.{hosts-IsFrom}
use proxy.Gateway.ToIr.Rules.{IsOf, entries-IsOf, rules_of_http-IsRuleOf, rules_of_grpc-IsRuleOf}
use proxy.Gateway.ToIr.Answers.{IsAnswer, IsRuleOf-IsAnswer}
use proxy.Gateway.ToIr.Translation.{
  http_translation, grpc_translation, http_translation-IsTranslation,
  grpc_translation-IsTranslation,
}

-- An exact host name that does not start with an asterisk: the API admits no other.
abbrev pub is_plain_name : Str → Bool
is_plain_name [] = true
is_plain_name (c ∷ s) = not (c == b'*')

abbrev pub is_plain : HostnameMatch → Bool
is_plain (HostnameMatch.exact s) = is_plain_name s
is_plain (HostnameMatch.wildcard s) = true
is_plain HostnameMatch.any = true

-- The host names of the view's routes are such.
abbrev pub HasPlainNames : GatewayView → Type 0
HasPlainNames view = All (λ e. is_plain e.0.route_hostname ≡ true) (entries view)

pub hostname_to_prefix-injective :
    (a b : HostnameMatch)
    → is_plain a ≡ true
    → is_plain b ≡ true
    → hostname_to_prefix a ≡ hostname_to_prefix b
    → a ≡ b
unfolding hostname_to_prefix
hostname_to_prefix-injective (HostnameMatch.exact s) (HostnameMatch.exact t) p q e =
    ap (λ x. HostnameMatch.exact x) e
hostname_to_prefix-injective (HostnameMatch.exact s) (HostnameMatch.wildcard t) p q e =
    absurd (ground (arith, subst (λ x. is_plain_name x ≡ true) e p))
hostname_to_prefix-injective (HostnameMatch.exact s) HostnameMatch.any p q e =
    absurd (ground (arith, subst (λ x. is_plain_name x ≡ true) e p))
hostname_to_prefix-injective (HostnameMatch.wildcard s) (HostnameMatch.exact t) p q e =
    absurd (ground (arith, subst (λ x. is_plain_name x ≡ true) (sym e) q))
hostname_to_prefix-injective (HostnameMatch.wildcard s) (HostnameMatch.wildcard t) p q e =
    ground (arith, e)
hostname_to_prefix-injective (HostnameMatch.wildcard s) HostnameMatch.any p q e =
    absurd (ground (arith, e))
hostname_to_prefix-injective HostnameMatch.any (HostnameMatch.exact t) p q e =
    absurd (ground (arith, subst (λ x. is_plain_name x ≡ true) (sym e) q))
hostname_to_prefix-injective HostnameMatch.any (HostnameMatch.wildcard t) p q e =
    absurd (ground (arith, e))
hostname_to_prefix-injective HostnameMatch.any HostnameMatch.any p q e = refl

-- The effective host name of a route by which it serves a request, and what gave it the name.
pub record IsReached (view : GatewayView) (route : RouteHostnames) (kind host : Str) (port : ℕ)
    (eff : EffectiveHostname) : Type 0 where
  pub parent : ParentRef
  pub of_route : Memᴰ parent route.parent_refs
  pub by : IsOnListener view route kind parent host eff ⊎ IsUnattached view route kind parent eff
  pub on_port : listener_port_matches port eff.listener_port ≡ true

reach :
    (view : GatewayView) (route : RouteHostnames) (kind host : Str) (port : ℕ)
    (eff : EffectiveHostname)
    → Memᴰ eff (compute_effective_hostnames view route kind)
    → hits host eff.route_hostname ≡ true
    → listener_port_matches port eff.listener_port ≡ true
    → IsReached view route kind host port eff
reach view route kind host port eff m h p =
    let (parent, mp, by) = compute_effective_hostnames_sound view route kind host eff m h in
    record { parent = parent; of_route = mp; by = by; on_port = p }

-- The route that answers a request with a plan.
pub data Answers (re : Regex) (view : GatewayView) (host : Str) (port : ℕ) (path method : Str)
    (headers : Headers) (query : Option Str) (plan : CompiledPlan) : Type 0 where
  http :
      (route : HttpRouteState)
      → Memᴰ route view.http_routes
      → (eff : EffectiveHostname)
      → IsReached view (http_hostnames route) (codes "HTTPRoute") host port eff
      → IsAnswer (http_translation eff.client_cert_id) re path method headers query route.rules plan
      → Answers re view host port path method headers query plan
  grpc :
      (route : GrpcRouteState)
      → Memᴰ route view.grpc_routes
      → (eff : EffectiveHostname)
      → IsReached view (grpc_hostnames route) (codes "GRPCRoute") host port eff
      → IsAnswer (grpc_translation eff.client_cert_id) re path method headers query route.rules plan
      → Answers re view host port path method headers query plan

-- End to end: a plan that a lookup finds in the table compiled from a reconciled view is that of an
-- HTTPRoute or a GRPCRoute of the view. The route has the host name and the port on a listener that
-- serves one of its parents and allows the route's kind and namespace, and route and listener accept
-- the host name; or it has no listener for that parent, and no port. A match of one of the route's
-- rules accepts the request's path, method, headers and query. The plan goes to the rule's backends
-- exactly when the rule is programmed and, for an HTTPRoute, has no redirect filter; a rule that is not
-- programmed answers 500. The view's host names, if exact, do not start with an asterisk.
pub gateway_lookup :
    (iter : List (Str × ℕ) → List (Str × ℕ)) (re : Regex) (view : GatewayView)
    (table : CompiledRouteTable) (host : Str) (port : ℕ) (path method : Str) (headers : Headers)
    (query : Option Str) (p : ArcPlan)
    → HasPlainNames view
    → compile_table iter (translate_view_to_ir view) ≡ ok table
    → table_lookup re table host port path method headers query ≡ some p
    → Answers re view host port path method headers query p.plan
unfolding new_host
gateway_lookup iter re view table host port path method headers query p plain c f =
    let (h, mh, fits, acc, x, mx, m, mm, is, pf, rf) =
      table_lookup_sound iter (translate_view_to_ir view) table host port re path method headers
        query p c f in
    let (key, i) = hosts-IsFrom view h mh in
    let (e, me, at_key, xe) = i.rules x mx in
    let keys : key_of i.first.0 ≡ key_of e.0 = i.at_key ∙ sym at_key in
    let names : i.first.0.route_hostname ≡ e.0.route_hostname =
      hostname_to_prefix-injective i.first.0.route_hostname e.0.route_hostname
        (All-Memᴰ (λ (y : Entry). is_plain y.0.route_hostname ≡ true) (entries view) plain i.known)
        (All-Memᴰ (λ (y : Entry). is_plain y.0.route_hostname ≡ true) (entries view) plain me)
        (ap (λ (k : GroupKey). k.1) keys) in
    let ports : i.first.0.listener_port ≡ e.0.listener_port = ap (λ (k : GroupKey). k.2) keys in
    let hit : hits host e.0.route_hostname ≡ true =
      subst (λ n. hits host n ≡ true) names
        (subst (λ (q : Ir.HostRoute). ir_hostname_matches host q.hostname ≡ true) i.host fits) in
    let on : listener_port_matches port e.0.listener_port ≡ true =
      subst (λ n. listener_port_matches port n ≡ true) ports
        (subst (λ (q : Ir.HostRoute). listener_port_matches port q.listener_port ≡ true) i.host
          (&&-split _ _ acc).1) in
    elim (entries-IsOf view e me) [
      | IsOf.http r mr meff eq ↦
          Answers.http r mr e.0
            (reach view (http_hostnames r) (codes "HTTPRoute") host port e.0 meff hit on)
            (IsRuleOf-IsAnswer (http_translation e.0.client_cert_id)
              (http_translation-IsTranslation e.0.client_cert_id) h p.plan re path method headers
              query x m r.rules mm is pf rf
              (rules_of_http-IsRuleOf r e.0 x (subst (λ l. Memᴰ x l) eq xe)))
      | IsOf.grpc r mr meff eq ↦
          Answers.grpc r mr e.0
            (reach view (grpc_hostnames r) (codes "GRPCRoute") host port e.0 meff hit on)
            (IsRuleOf-IsAnswer (grpc_translation e.0.client_cert_id)
              (grpc_translation-IsTranslation e.0.client_cert_id) h p.plan re path method headers
              query x m r.rules mm is pf rf
              (rules_of_grpc-IsRuleOf r e.0 x (subst (λ l. Memᴰ x l) eq xe)))
    ]
