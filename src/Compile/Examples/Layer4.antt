-- ===== src/Compile/Examples/Layer4.antt =====
-- A TCP listener and a route attached to it.
use proxy.Common.{◌≡◌, refl, false, map, filter, none, [], ◌∷◌}
use proxy.Common.Text.{Str, codes, str_eq}
use proxy.Common.HashMap.{get, insert}
use proxy.Common.Sort.{sort_by}
use proxy.Ir.{Protocol, HostnameMatch, L4Match, L4Action, L4Route, RouteTable}
use proxy.Compile.Types.{CompiledL4Config, ok}
use proxy.Compile.L4.{Groups, Merged, compile_l4}
use proxy.Compile.L4.Routes.{of_class, routes_of}
use proxy.Compile.L4.Addresses.{IsIteration}
use proxy.Compile.L4.Renamed.{IsRenamed, with_listener, compile_l4-routes_of}
use proxy.Common.{All}

abbrev in_order : Groups → Groups
in_order groups = groups

abbrev in_order_merged : Merged → Merged
in_order_merged m = m

abbrev tcp_route : L4Route
tcp_route = record {
  listener_id = codes "db";
  listener_hostname = HostnameMatch.any;
  match_ = L4Match.any;
  action = L4Action.tcp_relay [];
}

abbrev tcp_ir : RouteTable
tcp_ir = record {
  listeners =
      record {
        id = codes "db";
        bind_addr = codes "a:1";
        protocol = Protocol.tcp;
        tls = none;
        redirect_http_to_https = false;
        frontend_validation = none;
      }
      ∷ [];
  hosts = [];
  acme_routes = [];
  l4_routes = tcp_route ∷ [];
  tls_certs = [];
}

abbrev tcp_config : CompiledL4Config
tcp_config = record {
  listeners =
      record {
        id = codes "a:1#Tcp";
        bind_addr = codes "a:1";
        protocol = Protocol.tcp;
        tls = none;
        redirect_http_to_https = false;
        frontend_validation = none;
      }
      ∷ [];
  tcp_routes =
      record {
        listener_id = codes "a:1#Tcp";
        listener_hostname = HostnameMatch.any;
        match_ = L4Match.any;
        action = L4Action.tcp_relay [];
        priority = 0;
      }
      ∷ [];
  udp_routes = [];
  tls_routes = [];
  https_routes = [];
  http_routes = [];
}

tcp_compiles : compile_l4 in_order in_order_merged tcp_ir ≡ ok tcp_config
unfolding compile_l4 sort_by get insert str_eq
tcp_compiles = refl

in_order-IsIteration : {A : Type 0} → IsIteration {A = A} (λ m. m)
in_order-IsIteration = record { sound = λ m a h. h; complete = λ m a h. h }

compile_l4-routes_of_example :
    (rename : Str → Str) × All
      (λ (route : L4Route).
        IsRenamed tcp_ir tcp_config route.listener_id (rename route.listener_id))
      tcp_ir.l4_routes
    × (routes_of tcp_config Protocol.tcp
        ≡ map (with_listener rename) (filter (of_class Protocol.tcp) tcp_ir.l4_routes))
compile_l4-routes_of_example =
    compile_l4-routes_of in_order in_order_merged tcp_ir tcp_config Protocol.tcp
      in_order-IsIteration in_order-IsIteration tcp_compiles
