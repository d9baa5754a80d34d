-- ===== src/Gateway/Layer4/Origin.antt =====
-- Where a connection route comes from: the route or the listener of the reconciled view that makes it,
-- and what it then matches and does.
use mathlib.Core.List.{Memᴰ}
use proxy.Common.{◌≡◌, ◌++◌, true, false, Option, none, some, List, [], map}
use proxy.Common.Text.{Str, codes, is_empty, strip_prefix}
use proxy.Ir
use proxy.Gateway.Hostnames.{HostnameMatch, to_ir_hostname, intersect_hostname_pair}
use proxy.Gateway.Model.{GatewayView}
use proxy.Gateway.Model.View.{ParentRef, TlsMode, ListenerState, GatewayState}
use proxy.Gateway.Model.Routing.{
  HttpRouteState, GrpcRouteState, TcpRouteState, UdpRouteState, TlsRouteState,
}
use proxy.Gateway.Http.{to_ir_weighted_backend}
use proxy.Gateway.Effective.{
  EffectiveHostname, find_gateway, parent_ns, section_fits, compute_effective_hostnames,
}
use proxy.Gateway.Layer4.Listeners.{id_of}

-- A listener of the gateway of one of a route's parents, of a protocol and of the parent's section.
pub record IsAt (gateways : List GatewayState) (ns : Str) (parents : List ParentRef)
    (protocol : Str) (g : GatewayState) (l : ListenerState) : Type 0 where
  pub parent : ParentRef
  pub of_route : Memᴰ parent parents
  pub is_gateway : find_gateway gateways (parent_ns ns parent) parent.name ≡ some g
  pub listed : Memᴰ l g.listeners
  pub speaks : l.protocol ≡ protocol
  pub section : section_fits parent.section_name l ≡ true

-- The host names that a listener is for, in both forms: all of them, those under a name, or one.
pub data IsListenerName (l : ListenerState) (m : HostnameMatch) (h : Ir.HostnameMatch)
    : Type 0 where
  unnamed :
      l.hostname ≡ none → m ≡ HostnameMatch.any → h ≡ Ir.HostnameMatch.any → IsListenerName l m h
  under :
      (s rest : Str)
      → l.hostname ≡ some s
      → s ≡ codes "*." ++ rest
      → m ≡ HostnameMatch.wildcard rest
      → h ≡ Ir.HostnameMatch.wildcard rest
      → IsListenerName l m h
  named :
      (s : Str)
      → l.hostname ≡ some s
      → strip_prefix s (codes "*.") ≡ none
      → m ≡ HostnameMatch.exact s
      → h ≡ Ir.HostnameMatch.exact s
      → IsListenerName l m h

-- The host names of a TLS route on a listener: the listener's where the route has none, otherwise one
-- of the route's, as far as it is within the listener's.
pub data IsTlsName (hs : List HostnameMatch) (lm h : HostnameMatch) : Type 0 where
  of_listener : hs ≡ [] → h ≡ lm → IsTlsName hs lm h
  of_route :
      (rh : HostnameMatch) → Memᴰ rh hs → intersect_hostname_pair rh lm ≡ some h → IsTlsName hs lm h

-- A TLS listener ends the connection's TLS or, unless it says so, passes it through.
pub data IsTlsAction (mode : Option TlsMode) (bs : List Ir.WeightedBackend) (a : Ir.L4Action)
    : Type 0 where
  terminates :
      mode ≡ some TlsMode.terminate → a ≡ Ir.L4Action.tls_terminate bs → IsTlsAction mode bs a
  passes :
      mode ≡ some TlsMode.passthrough → a ≡ Ir.L4Action.tls_passthrough bs → IsTlsAction mode bs a
  unset : mode ≡ none → a ≡ Ir.L4Action.tls_passthrough bs → IsTlsAction mode bs a

-- Some HTTPRoute or GRPCRoute with a parent has an effective host name on the listener with this id.
pub data IsAsked (view : GatewayView) (id : Str) : Type 0 where
  by_http :
      (r : HttpRouteState)
      → Memᴰ r view.http_routes
      → is_empty r.parent_refs ≡ false
      → (e : EffectiveHostname)
      → Memᴰ e (
          compute_effective_hostnames view
            (record {
              namespace = r.namespace;
              parent_refs = r.parent_refs;
              hostnames = r.hostnames;
            })
            (codes "HTTPRoute"))
      → e.listener_id ≡ some id
      → IsAsked view id
  by_grpc :
      (r : GrpcRouteState)
      → Memᴰ r view.grpc_routes
      → is_empty r.parent_refs ≡ false
      → (e : EffectiveHostname)
      → Memᴰ e (
          compute_effective_hostnames view
            (record {
              namespace = r.namespace;
              parent_refs = r.parent_refs;
              hostnames = r.hostnames;
            })
            (codes "GRPCRoute"))
      → e.listener_id ≡ some id
      → IsAsked view id

-- By its listener's host name, where the listener has one.
pub data IsOwnMatch (l : ListenerState) (h : Ir.HostnameMatch) (m : Ir.L4Match) : Type 0 where
  every : l.hostname ≡ none → m ≡ Ir.L4Match.any → IsOwnMatch l h m
  own : (s : Str) → l.hostname ≡ some s → m ≡ Ir.L4Match.sni h → IsOwnMatch l h m

-- A connection route for a listener of a gateway, by what made it.
pub data IsL4Route (view : GatewayView) (r : Ir.L4Route) (g : GatewayState) (l : ListenerState)
    : Type 0 where
  tcp :
      (t : TcpRouteState)
      → Memᴰ t view.tcp_routes
      → t.programmed ≡ true
      → IsAt view.gateways t.namespace t.parent_refs (codes "TCP") g l
      → r.listener_hostname ≡ Ir.HostnameMatch.any
      → r.match_ ≡ Ir.L4Match.any
      → r.action ≡ Ir.L4Action.tcp_relay (map to_ir_weighted_backend t.backends)
      → IsL4Route view r g l
  udp :
      (t : UdpRouteState)
      → Memᴰ t view.udp_routes
      → t.programmed ≡ true
      → IsAt view.gateways t.namespace t.parent_refs (codes "UDP") g l
      → r.listener_hostname ≡ Ir.HostnameMatch.any
      → r.match_ ≡ Ir.L4Match.any
      → r.action ≡ Ir.L4Action.udp_relay (map to_ir_weighted_backend t.backends)
      → IsL4Route view r g l
  tls :
      (t : TlsRouteState)
      → Memᴰ t view.tls_routes
      → t.programmed ≡ true
      → IsAt view.gateways t.namespace t.parent_refs (codes "TLS") g l
      → (lm : HostnameMatch) → IsListenerName l lm r.listener_hostname
      → (h : HostnameMatch) → IsTlsName t.hostnames lm h
      → r.match_ ≡ Ir.L4Match.sni (to_ir_hostname h)
      → IsTlsAction l.tls_mode (map to_ir_weighted_backend t.backends) r.action
      → IsL4Route view r g l
  https :
      Memᴰ g view.gateways
      → Memᴰ l g.listeners
      → l.protocol ≡ codes "HTTPS"
      → IsAsked view (id_of g l)
      → (lm : HostnameMatch) → IsListenerName l lm r.listener_hostname
      → IsOwnMatch l r.listener_hostname r.match_
      → r.action ≡ Ir.L4Action.terminate_and_http (codes "127.0.0.1:10443")
      → IsL4Route view r g l
  http :
      Memᴰ g view.gateways
      → Memᴰ l g.listeners
      → l.protocol ≡ codes "HTTP"
      → (lm : HostnameMatch) → IsListenerName l lm r.listener_hostname
      → r.match_ ≡ Ir.L4Match.any
      → r.action ≡ Ir.L4Action.http_relay (codes "127.0.0.1:10443")
      → IsL4Route view r g l
