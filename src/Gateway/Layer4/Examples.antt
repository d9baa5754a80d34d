-- ===== src/Gateway/Layer4/Examples.antt =====
-- The HTTP listener of a gateway, sent to the HTTP proxy.
use proxy.Common.{◌≡◌, refl, [], ◌∷◌}
use proxy.Common.Text.{codes, str_eq, strip_prefix}
use proxy.Gateway.Hostnames.{to_ir_hostname, parse_listener_hostname}
use proxy.Ir
use proxy.Gateway.Samples.{web, edge, view}
use proxy.Gateway.Layer4.Listeners.{id_of}
use proxy.Gateway.Layer4.{translate_l4_routes}

abbrev relay : Ir.L4Route
relay = record {
  listener_id = id_of edge web;
  listener_hostname = Ir.HostnameMatch.wildcard (codes "org");
  match_ = Ir.L4Match.any;
  action = Ir.L4Action.http_relay (codes "127.0.0.1:10443");
}

relayed : (translate_l4_routes view).1 ≡ relay ∷ []
unfolding translate_l4_routes str_eq to_ir_hostname parse_listener_hostname strip_prefix
relayed = refl
