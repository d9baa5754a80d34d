-- ===== src/Gateway/Layer4.antt =====
-- src/gateway/translate/l4.rs: the listeners and the connection routes of the reconciled view.
pub mod Listeners
pub mod Config
pub mod Registered
pub mod Loops
pub mod Origin
pub mod Made
pub mod Sound
mod Examples
use proxy.Common.{
  ℕ, suc, zero, ◌+◌, ◌/◌, ◌%◌, Bool, true, false, not, Option, none, some, List, [], ◌∷◌, ◌++◌,
  ◌&&◌, map, filter, find, flat_map, filter_map, if◌then◌else◌, unwrap_or, ltb, any, cons_option,
  is_some,
}
use proxy.Common.Text.{Str, codes, str_eq, is_empty}
use proxy.Common.Order.{str_cmp}
use proxy.Common.BTreeMap.{get, upsert}
use mathlib.Core.Option
use proxy.Ir
use proxy.Gateway.Hostnames.{
  HostnameMatch, to_ir_hostname, parse_listener_hostname, intersect_hostname_pair,
}
use proxy.Gateway.Model.{GatewayView}
use proxy.Gateway.Model.View.{ParentRef, TlsMode, FrontendValidation, ListenerState, GatewayState}
use proxy.Gateway.Model.Routing.{
  HttpRouteState, GrpcRouteState, TcpRouteState, UdpRouteState, TlsRouteState,
}
use proxy.Gateway.Http.{to_ir_weighted_backend}
use proxy.Gateway.Effective.{
  EffectiveHostname, find_gateway, parent_ns, section_fits, listener_id,
  compute_effective_hostnames,
}
use proxy.Gateway.Layer4.Listeners.{Layer4, id_of, each_listener, each_parent}

-- `add_l4_routes_for_parents`: what it does with a listener.
unfoldable pub plain_route :
    Str → Ir.L4Action → ParentRef → GatewayState → ListenerState → Option (List Ir.L4Route)
plain_route expected_protocol action parent g l =
    if str_eq l.protocol expected_protocol && section_fits parent.section_name l
    then some (
        record {
          listener_id = id_of g l;
          listener_hostname = Ir.HostnameMatch.any;
          match_ = Ir.L4Match.any;
          action = action;
        }
        ∷ [])
    else none

unfoldable pub add_tcp_routes : List GatewayState → List TcpRouteState → Layer4 → Layer4
unfolding plain_route each_parent
add_tcp_routes gateways [] s = s
add_tcp_routes gateways (r ∷ rs) s = add_tcp_routes gateways rs (
    if r.programmed
    then each_parent gateways r.namespace
        (plain_route (codes "TCP") (Ir.L4Action.tcp_relay (map to_ir_weighted_backend r.backends)))
        r.parent_refs s
    else s)

unfoldable pub add_udp_routes : List GatewayState → List UdpRouteState → Layer4 → Layer4
unfolding plain_route each_parent
add_udp_routes gateways [] s = s
add_udp_routes gateways (r ∷ rs) s = add_udp_routes gateways rs (
    if r.programmed
    then each_parent gateways r.namespace
        (plain_route (codes "UDP") (Ir.L4Action.udp_relay (map to_ir_weighted_backend r.backends)))
        r.parent_refs s
    else s)

abbrev pub tls_match : ListenerState → HostnameMatch
tls_match l = unwrap_or HostnameMatch.any (Option.map parse_listener_hostname l.hostname)

-- `effective_hostnames`.
unfoldable pub tls_hostnames : List HostnameMatch → HostnameMatch → List HostnameMatch
tls_hostnames [] l = l ∷ []
tls_hostnames (h ∷ hs) l = filter_map (λ rh. intersect_hostname_pair rh l) (h ∷ hs)

abbrev pub tls_action : Option TlsMode → List Ir.WeightedBackend → Ir.L4Action
tls_action (some TlsMode.terminate) backends = Ir.L4Action.tls_terminate backends
tls_action (some TlsMode.passthrough) backends = Ir.L4Action.tls_passthrough backends
tls_action none backends = Ir.L4Action.tls_passthrough backends

abbrev pub tls_l4_route : TlsRouteState → GatewayState → ListenerState → HostnameMatch → Ir.L4Route
tls_l4_route r g l hostname = record {
  listener_id = id_of g l;
  listener_hostname = to_ir_hostname (tls_match l);
  match_ = Ir.L4Match.sni (to_ir_hostname hostname);
  action = tls_action l.tls_mode (map to_ir_weighted_backend r.backends);
}

-- No route is pushed, and the listener not registered, where no host name is left.
abbrev pub unless_empty : List Ir.L4Route → Option (List Ir.L4Route)
unless_empty [] = none
unless_empty (r ∷ rs) = some (r ∷ rs)

unfoldable pub tls_route_for :
    TlsRouteState → ParentRef → GatewayState → ListenerState → Option (List Ir.L4Route)
unfolding tls_hostnames
tls_route_for r parent g l =
    if str_eq l.protocol (codes "TLS") && section_fits parent.section_name l
    then unless_empty (map (tls_l4_route r g l) (tls_hostnames r.hostnames (tls_match l)))
    else none

unfoldable pub add_tls_routes : List GatewayState → List TlsRouteState → Layer4 → Layer4
unfolding tls_route_for each_parent
add_tls_routes gateways [] s = s
add_tls_routes gateways (r ∷ rs) s =
    add_tls_routes gateways rs (
      if r.programmed
      then each_parent gateways r.namespace (tls_route_for r) r.parent_refs s
      else s)

-- The ids of the listeners that a route has effective host names on.
abbrev pub ids_of : List EffectiveHostname → List Str
ids_of effs = filter_map (λ (e : EffectiveHostname). e.listener_id) effs

abbrev pub http_ids : GatewayView → HttpRouteState → List Str
http_ids view r =
    if is_empty r.parent_refs
    then []
    else ids_of (
        compute_effective_hostnames view
          (record { namespace = r.namespace; parent_refs = r.parent_refs; hostnames = r.hostnames })
          (codes "HTTPRoute"))

abbrev pub grpc_ids : GatewayView → GrpcRouteState → List Str
grpc_ids view r =
    if is_empty r.parent_refs
    then []
    else ids_of (
        compute_effective_hostnames view
          (record { namespace = r.namespace; parent_refs = r.parent_refs; hostnames = r.hostnames })
          (codes "GRPCRoute"))

-- `https_listener_ids`, a set that is only asked for its members.
unfoldable pub https_listener_ids : GatewayView → List Str
https_listener_ids view =
    flat_map (http_ids view) view.http_routes ++ flat_map (grpc_ids view) view.grpc_routes

abbrev pub https_http_target : Str
https_http_target = codes "127.0.0.1:10443"

abbrev pub own_ir_hostname : ListenerState → Ir.HostnameMatch
own_ir_hostname l =
    unwrap_or Ir.HostnameMatch.any
      (Option.map (λ h. to_ir_hostname (parse_listener_hostname h)) l.hostname)

unfoldable pub https_route_for : List Str → GatewayState → ListenerState → Option (List Ir.L4Route)
https_route_for ids g l =
    if str_eq l.protocol (codes "HTTPS") && any (λ i. str_eq i (id_of g l)) ids
    then some (
        record {
          listener_id = id_of g l;
          listener_hostname = own_ir_hostname l;
          match_ =
              if is_some l.hostname then Ir.L4Match.sni (own_ir_hostname l) else Ir.L4Match.any;
          action = Ir.L4Action.terminate_and_http https_http_target;
        }
        ∷ [])
    else none

unfoldable pub http_route_for : GatewayState → ListenerState → Option (List Ir.L4Route)
http_route_for g l =
    if str_eq l.protocol (codes "HTTP")
    then some (
        record {
          listener_id = id_of g l;
          listener_hostname = own_ir_hostname l;
          match_ = Ir.L4Match.any;
          action = Ir.L4Action.http_relay https_http_target;
        }
        ∷ [])
    else none

-- The two loops over every listener of every gateway.
unfoldable pub each_gateway :
    (GatewayState → ListenerState → Option (List Ir.L4Route)) → List GatewayState → Layer4 → Layer4
unfolding each_listener
each_gateway routes_for [] s = s
each_gateway routes_for (g ∷ gs) s =
    each_gateway routes_for gs (each_listener g (routes_for g) g.listeners s)

unfoldable pub layer4_of : GatewayView → Layer4
unfolding add_tcp_routes add_udp_routes add_tls_routes https_listener_ids https_route_for
    http_route_for each_gateway
layer4_of view = each_gateway http_route_for view.gateways (
    each_gateway (https_route_for (https_listener_ids view)) view.gateways (
      add_tls_routes view.gateways view.tls_routes (
        add_udp_routes view.gateways view.udp_routes (
          add_tcp_routes view.gateways view.tcp_routes
            (record { listeners = []; l4_routes = [] })))))

unfoldable pub translate_l4_routes : GatewayView → List Ir.ListenerConfig × List Ir.L4Route
unfolding layer4_of
translate_l4_routes view = (map (λ e. e.1) (layer4_of view).listeners, (layer4_of view).l4_routes)
