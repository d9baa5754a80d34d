-- ===== src/Gateway/ToIr.antt =====
-- src/gateway/translate/ir.rs: `translate_view_to_ir` makes the route table of the reconciled view.
pub mod Groups
pub mod Origin
pub mod Translation
pub mod Rules
pub mod Answers
pub mod Lookup
pub mod Reached
pub mod Unattached
mod Examples
use Prim.Native.Nat.{Ordering}
use proxy.Common.{
  ℕ, suc, Bool, true, false, Option, none, some, List, [], ◌∷◌, ◌++◌, map, any, if◌then◌else◌,
}
use proxy.Common.Text.{Str, codes, is_empty}
use proxy.Common.Order.{str_cmp, port_cmp, triple_cmp}
use proxy.Common.BTreeMap.{upsert}
use mathlib.Core.Option
use proxy.Ir
use proxy.Gateway.Hostnames.{HostnameMatch, to_ir_hostname}
use proxy.Gateway.Model.{GatewayView}
use proxy.Gateway.Model.Routing.{
  WeightedBackend, HttpRouteRule, HttpRouteState, GrpcRouteRule, GrpcRouteState,
}
use proxy.Gateway.FromModel.{weighted_backend}
use proxy.Gateway.Http.{
  no_match, unprogrammed_rule, is_web_socket, from_millis, translate_rule_to_ir,
}
use proxy.Gateway.Grpc.{translate_grpc_rule_to_ir}
use proxy.Gateway.Effective.{RouteHostnames, EffectiveHostname, compute_effective_hostnames}
use proxy.Gateway.Layer4.{translate_l4_routes}

-- src/gateway/translate/mod.rs.
unfoldable pub hostname_to_prefix : HostnameMatch → Str
hostname_to_prefix (HostnameMatch.exact h) = h
hostname_to_prefix (HostnameMatch.wildcard h) = codes "*." ++ h
hostname_to_prefix HostnameMatch.any = codes "*"

abbrev pub GroupKey : Type 0
GroupKey = Str × Str × Option ℕ

unfoldable pub group_cmp : GroupKey → GroupKey → Ordering
unfolding str_cmp port_cmp triple_cmp
group_cmp = triple_cmp str_cmp str_cmp port_cmp

abbrev pub Groups : Type 0
Groups = List (GroupKey × Ir.HostRoute)

-- The rules of a route in their order, each with its index.
unfoldable pub http_rules : ℕ → List HttpRouteRule → Option Str → List Ir.Rule
http_rules rule_idx [] client_cert_id = []
http_rules rule_idx (rule ∷ rules) client_cert_id =
    translate_rule_to_ir rule rule_idx rule.programmed client_cert_id
    ++ http_rules (suc rule_idx) rules client_cert_id

unfoldable pub grpc_rules : ℕ → List GrpcRouteRule → Option Str → List Ir.Rule
grpc_rules rule_idx [] client_cert_id = []
grpc_rules rule_idx (rule ∷ rules) client_cert_id =
    translate_grpc_rule_to_ir rule rule_idx rule.programmed client_cert_id
    ++ grpc_rules (suc rule_idx) rules client_cert_id

-- The catch-all to a first backend, where a programmed route with rules produced none.
abbrev pub first_backend_rule : Option ℕ → Bool → Option Str → List WeightedBackend → List Ir.Rule
first_backend_rule timeout websocket client_cert_id [] = []
first_backend_rule timeout websocket client_cert_id (b ∷ bs) =
    record {
      matches = no_match ∷ [];
      action = Ir.Action.route (record {
        backends = weighted_backend b ∷ [];
        timeout = timeout;
        request_filters = [];
        response_filters = [];
        mirror_backends = [];
        mirror_fractions = [];
        cache = none;
        body_rewrites = [];
        auth = none;
        websocket = websocket;
        disable_https_redirect = true;
        client_cert_id = client_cert_id;
      });
      rule_order = 0;
    }
    ∷ []

unfoldable pub default_http_rules : Bool → List HttpRouteRule → Option Str → List Ir.Rule
default_http_rules programmed [] client_cert_id = []
default_http_rules programmed (rule ∷ rules) client_cert_id =
    if programmed
    then first_backend_rule (Option.map from_millis rule.timeout_ms)
        (any (λ (b : WeightedBackend). is_web_socket b.protocol) rule.backends) client_cert_id
        rule.backends
    else unprogrammed_rule 0 no_match ∷ []

unfoldable pub default_grpc_rules : Bool → List GrpcRouteRule → Option Str → List Ir.Rule
default_grpc_rules programmed [] client_cert_id = []
default_grpc_rules programmed (rule ∷ rules) client_cert_id =
    if programmed
    then first_backend_rule none false client_cert_id rule.backends
    else unprogrammed_rule 0 no_match ∷ []

abbrev pub or_default : List Ir.Rule → List Ir.Rule → List Ir.Rule
or_default [] default_ = default_
or_default (r ∷ rs) default_ = r ∷ rs

-- What the loop over the effective host names makes of one, for either kind of route.
unfoldable pub rules_of_http : HttpRouteState → EffectiveHostname → List Ir.Rule
unfolding http_rules default_http_rules
rules_of_http route eff =
    or_default (http_rules 0 route.rules eff.client_cert_id)
      (default_http_rules route.programmed route.rules eff.client_cert_id)

unfoldable pub rules_of_grpc : GrpcRouteState → EffectiveHostname → List Ir.Rule
unfolding grpc_rules default_grpc_rules
rules_of_grpc route eff =
    or_default (grpc_rules 0 route.rules eff.client_cert_id)
      (default_grpc_rules route.programmed route.rules eff.client_cert_id)

abbrev pub listener_hostname_of : HostnameMatch → Option Ir.HostnameMatch
listener_hostname_of HostnameMatch.any = none
listener_hostname_of (HostnameMatch.exact s) =
    if is_empty s
    then some (Ir.HostnameMatch.exact s)
    else some (to_ir_hostname (HostnameMatch.exact s))
listener_hostname_of (HostnameMatch.wildcard s) = some (to_ir_hostname (HostnameMatch.wildcard s))

abbrev pub listener_ids_of : Str → List Str
listener_ids_of listener_id = if is_empty listener_id then [] else listener_id ∷ []

abbrev pub key_of : EffectiveHostname → GroupKey
key_of eff = (
  hostname_to_prefix eff.listener_hostname,
  hostname_to_prefix eff.route_hostname,
  eff.listener_port,
)

unfoldable pub new_host : EffectiveHostname → List Ir.Rule → Ir.HostRoute
new_host eff rules = record {
  hostname = to_ir_hostname eff.route_hostname;
  listener_ids = listener_ids_of (hostname_to_prefix eff.listener_hostname);
  listener_hostname = listener_hostname_of eff.listener_hostname;
  listener_port = eff.listener_port;
  gateway_api = true;
  disable_secure_redirection = true;
  rules = rules;
}

-- `match groups.entry(key)`.
unfoldable pub extended : EffectiveHostname → List Ir.Rule → Option Ir.HostRoute → Ir.HostRoute
unfolding new_host
extended eff rules none = new_host eff rules
extended eff rules (some h) = record h { rules = h.rules ++ rules }

unfoldable pub add_group :
    (EffectiveHostname → List Ir.Rule) → List EffectiveHostname → Groups → Groups
unfolding extended group_cmp
add_group rules_of [] groups = groups
add_group rules_of (eff ∷ effs) groups =
    add_group rules_of effs (upsert group_cmp (key_of eff) (extended eff (rules_of eff)) groups)

abbrev pub http_hostnames : HttpRouteState → RouteHostnames
http_hostnames r = record {
  namespace = r.namespace;
  parent_refs = r.parent_refs;
  hostnames = r.hostnames;
}

abbrev pub grpc_hostnames : GrpcRouteState → RouteHostnames
grpc_hostnames r = record {
  namespace = r.namespace;
  parent_refs = r.parent_refs;
  hostnames = r.hostnames;
}

unfoldable pub add_http_routes : GatewayView → List HttpRouteState → Groups → Groups
unfolding add_group
add_http_routes view [] groups = groups
add_http_routes view (r ∷ rs) groups = add_http_routes view rs (
    if is_empty r.parent_refs
    then groups
    else add_group (rules_of_http r)
        (compute_effective_hostnames view (http_hostnames r) (codes "HTTPRoute")) groups)

unfoldable pub add_grpc_routes : GatewayView → List GrpcRouteState → Groups → Groups
unfolding add_group
add_grpc_routes view [] groups = groups
add_grpc_routes view (r ∷ rs) groups = add_grpc_routes view rs (
    if is_empty r.parent_refs
    then groups
    else add_group (rules_of_grpc r)
        (compute_effective_hostnames view (grpc_hostnames r) (codes "GRPCRoute")) groups)

unfoldable pub groups_of : GatewayView → Groups
unfolding add_http_routes add_grpc_routes
groups_of view = add_grpc_routes view view.grpc_routes (add_http_routes view view.http_routes [])

unfoldable pub translate_view_to_ir : GatewayView → Ir.RouteTable
unfolding groups_of
translate_view_to_ir view = record {
  listeners = (translate_l4_routes view).0;
  hosts = map (λ e. e.1) (groups_of view);
  acme_routes = [];
  l4_routes = (translate_l4_routes view).1;
  tls_certs = [];
}
