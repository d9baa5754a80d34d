-- ===== src/Gateway/Model.antt =====
-- src/gateway: the model of the Gateway API that the reconcilers build and the translation reads.
pub mod View
pub mod Routing
use proxy.Common.{Option, List}
use proxy.Common.Text.{Str}
use proxy.Gateway.Namespaces.{AllowedRoutes}
use proxy.Gateway.Model.View.{GatewayState, ListenerSetState}
use proxy.Gateway.Model.Routing.{
  HttpRouteState, GrpcRouteState, TcpRouteState, UdpRouteState, TlsRouteState,
}

-- The routes that a listener allows, by the namespace and the name of its gateway and by its own.
abbrev pub ListenerAllowedMap : Type 0
ListenerAllowedMap = List ((Str × Str × Str) × AllowedRoutes)

-- The fields of `ReconciledView` that the translation reads.
pub record GatewayView : Type 0 where
  pub gateways : List GatewayState
  pub listener_sets : List ListenerSetState
  pub http_routes : List HttpRouteState
  pub grpc_routes : List GrpcRouteState
  pub tcp_routes : List TcpRouteState
  pub udp_routes : List UdpRouteState
  pub tls_routes : List TlsRouteState
  pub namespace_labels : List (Str × List (Str × Str))
  pub listener_allowed : ListenerAllowedMap
  pub listener_set_allowed : ListenerAllowedMap
