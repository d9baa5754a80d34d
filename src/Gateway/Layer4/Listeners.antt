-- ===== src/Gateway/Layer4/Listeners.antt =====
-- src/gateway/translate/l4.rs: how a listener is registered, and the loops over listeners and parents.
use proxy.Common.{
  ℕ, suc, zero, ◌+◌, ◌/◌, ◌%◌, false, not, Option, none, some, List, [], ◌∷◌, ◌++◌, if◌then◌else◌,
  ltb, is_some,
}
use proxy.Common.Text.{Str, codes, str_eq}
use proxy.Common.Order.{str_cmp}
use proxy.Common.BTreeMap.{get, upsert}
use mathlib.Core.Option
use proxy.Ir
use proxy.Gateway.Model.View.{ParentRef, FrontendValidation, ListenerState, GatewayState}
use proxy.Gateway.Effective.{find_gateway, parent_ns, listener_id}

unfoldable pub listener_protocol_to_ir : Str → Option Ir.Protocol
listener_protocol_to_ir protocol =
    if str_eq protocol (codes "HTTP")
    then some Ir.Protocol.http
    else if str_eq protocol (codes "HTTPS")
    then some Ir.Protocol.https
    else if str_eq protocol (codes "TCP")
    then some Ir.Protocol.tcp
    else if str_eq protocol (codes "UDP")
    then some Ir.Protocol.udp
    else if str_eq protocol (codes "TLS")
    then some Ir.Protocol.tls
    else none

-- `format!("{}", port)`, of at most as many digits as the fuel: a u16 has five.
unfoldable pub decimal : ℕ → ℕ → Str
decimal zero n = []
decimal (suc f) n =
    let rest = decimal f (n / 10) in if ltb n 10 then (48 + n) ∷ [] else rest ++ (48 + n % 10) ∷ []

abbrev pub Listeners : Type 0
Listeners = List (Str × Ir.ListenerConfig)

abbrev pub tls_of : Ir.Protocol → Option Ir.TlsConfig
tls_of Ir.Protocol.http = none
tls_of Ir.Protocol.https = some (Ir.TlsConfig.registry (codes "gateway"))
tls_of Ir.Protocol.tcp = none
tls_of Ir.Protocol.udp = none
tls_of Ir.Protocol.tls = some (Ir.TlsConfig.registry (codes "gateway"))

abbrev pub validation : FrontendValidation → Ir.FrontendValidation
validation v = record {
  ca_bundle_pem = v.ca_bundle_pem;
  allow_insecure_fallback = v.allow_insecure_fallback;
}

unfoldable pub listener_config : Str → ListenerState → Ir.Protocol → Ir.ListenerConfig
unfolding decimal
listener_config id l protocol = record {
  id = id;
  bind_addr = codes "0.0.0.0:" ++ decimal 5 l.port;
  protocol = protocol;
  tls = tls_of protocol;
  redirect_http_to_https = false;
  frontend_validation = Option.map validation l.frontend_validation;
}

-- The protocol that is known, and the insertion.
abbrev pub insert_known : Str → ListenerState → Option Ir.Protocol → Listeners → Listeners
insert_known id l none listeners = listeners
insert_known id l (some protocol) listeners =
    upsert str_cmp id (λ _. listener_config id l protocol) listeners

abbrev pub id_of : GatewayState → ListenerState → Str
id_of g l = listener_id g.namespace g.name l

unfoldable pub add_l4_listener : Listeners → GatewayState → ListenerState → Listeners
unfolding listener_protocol_to_ir listener_config
add_l4_listener listeners g l =
    if not l.programmed
    then listeners
    else if is_some (get str_cmp (id_of g l) listeners)
    then listeners
    else insert_known (id_of g l) l (listener_protocol_to_ir l.protocol) listeners

-- The two vectors that the function builds.
pub record Layer4 : Type 0 where
  pub listeners : Listeners
  pub l4_routes : List Ir.L4Route

-- What the body of a loop does with a listener: register it, and push some routes.
abbrev pub push : GatewayState → ListenerState → List Ir.L4Route → Layer4 → Layer4
push g l routes s = record {
  listeners = add_l4_listener s.listeners g l;
  l4_routes = s.l4_routes ++ routes;
}

-- The loop over the listeners of a gateway: a listener that the loop passes over gives `none`.
unfoldable pub each_listener :
    GatewayState → (ListenerState → Option (List Ir.L4Route)) → List ListenerState → Layer4 → Layer4
unfolding add_l4_listener
each_listener g routes_for [] s = s
each_listener g routes_for (l ∷ ls) s =
    each_listener g routes_for ls
      (elim (routes_for l) [ none ↦ s | some routes ↦ push g l routes s ])

-- The loop over the parents of a route, for those whose gateway is found.
abbrev pub on_gateway : Option GatewayState → (GatewayState → Layer4 → Layer4) → Layer4 → Layer4
on_gateway none step s = s
on_gateway (some g) step s = step g s

unfoldable pub each_parent :
    List GatewayState
    → Str
    → (ParentRef → GatewayState → ListenerState → Option (List Ir.L4Route))
    → List ParentRef
    → Layer4
    → Layer4
unfolding each_listener
each_parent gateways ns routes_for [] s = s
each_parent gateways ns routes_for (parent ∷ parents) s =
    each_parent gateways ns routes_for parents (
      on_gateway (find_gateway gateways (parent_ns ns parent) parent.name)
        (λ g. each_listener g (routes_for parent g) g.listeners) s)
