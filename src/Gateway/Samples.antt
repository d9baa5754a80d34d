-- ===== src/Gateway/Samples.antt =====
-- A gateway with one HTTP listener, and an HTTPRoute attached to it.

use proxy.Common.{true, none, some, [], ◌∷◌}
use proxy.Common.Text.{codes}
use proxy.Common.Signed.{I64}
use proxy.Ir.{BackendProtocol}
use proxy.Gateway.Hostnames.{HostnameMatch}
use proxy.Gateway.Model.{GatewayView}
use proxy.Gateway.Model.View.{ParentRef, ListenerState, GatewayState}
use proxy.Gateway.Model.Routing.{WeightedBackend, HttpRouteRule, HttpRouteState}
use proxy.Gateway.Effective.{group_name}

abbrev pub parent : ParentRef
parent = record {
  group = group_name;
  kind = codes "Gateway";
  namespace = none;
  name = codes "edge";
  section_name = none;
  port = none;
}

abbrev pub web : ListenerState
web = record {
  name = codes "web";
  protocol = codes "HTTP";
  port = 80;
  hostname = some (codes "*.org");
  tls_mode = none;
  frontend_validation = none;
  programmed = true;
}

abbrev pub edge : GatewayState
edge = record {
  namespace = codes "a";
  name = codes "edge";
  generation = I64.pos 1;
  listeners = web ∷ [];
  backend_client_cert_id = none;
}

abbrev pub app : WeightedBackend
app = record {
  backend = codes "app:1";
  weight = 1;
  filters = [];
  protocol = BackendProtocol.http;
  tls = none;
}

abbrev pub app_rule : HttpRouteRule
app_rule = record {
  matches = [];
  backends = app ∷ [];
  filters = [];
  timeout_ms = none;
  request_timeout_ms = none;
  programmed = true;
}

abbrev pub shop : HttpRouteState
shop = record {
  namespace = codes "a";
  name = codes "shop";
  generation = I64.pos 1;
  hostnames = HostnameMatch.exact (codes "x.org") ∷ [];
  rules = app_rule ∷ [];
  parent_refs = parent ∷ [];
  programmed = true;
}

abbrev pub view : GatewayView
view = record {
  gateways = edge ∷ [];
  listener_sets = [];
  http_routes = shop ∷ [];
  grpc_routes = [];
  tcp_routes = [];
  udp_routes = [];
  tls_routes = [];
  namespace_labels = [];
  listener_allowed = [];
  listener_set_allowed = [];
}
