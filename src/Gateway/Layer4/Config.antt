-- ===== src/Gateway/Layer4/Config.antt =====
-- How a listener of a gateway is configured, written out, and that `add_l4_listener` does it.
use mathlib.Core.List.{Memᴰ}
use mathlib.Core.Path.{subst}
use mathlib.Core.Option
use proxy.Common.{
  ℕ, suc, zero, ◌+◌, ◌*◌, ◌-◌, ◌/◌, ◌%◌, ◌^◌, ◌≤◌, ◌<◌, ◌≡◌, refl, sym, ◌∙◌, ◌⊎◌, inl, inr, true,
  false, Option, none, some, List, [], ◌∷◌, ◌++◌, arith, is_some, Bool-cases, Option-cases, ltb,
}
use proxy.Common.Text.{Str, codes, str_eq, str_eq_iff}
use proxy.Common.Order.{str_cmp, str_cmp-IsOrder}
use proxy.Common.BTreeMap.{get, upsert-mem}
use proxy.Ir
use proxy.Gateway.Model.View.{FrontendValidation, ListenerState, GatewayState}
use proxy.Gateway.Layer4.Listeners.{
  Listeners, id_of, decimal, listener_protocol_to_ir, listener_config, tls_of, validation,
  insert_known, add_l4_listener,
}

-- The number that a string of digits is, after those that give `n`.
unfoldable pub decimal_value : ℕ → Str → ℕ
decimal_value n [] = n
decimal_value n (d ∷ ds) = decimal_value (n * 10 + (d - 48)) ds

-- The protocol and the TLS settings of a listener, by the name of its protocol.
pub data IsProtocol (name : Str) (protocol : Ir.Protocol) (tls : Option Ir.TlsConfig) : Type 0 where
  http :
      name ≡ codes "HTTP" → protocol ≡ Ir.Protocol.http → tls ≡ none → IsProtocol name protocol tls
  https :
      name ≡ codes "HTTPS"
      → protocol ≡ Ir.Protocol.https
      → tls ≡ some (Ir.TlsConfig.registry (codes "gateway"))
      → IsProtocol name protocol tls
  tcp : name ≡ codes "TCP" → protocol ≡ Ir.Protocol.tcp → tls ≡ none → IsProtocol name protocol tls
  udp : name ≡ codes "UDP" → protocol ≡ Ir.Protocol.udp → tls ≡ none → IsProtocol name protocol tls
  tls :
      name ≡ codes "TLS"
      → protocol ≡ Ir.Protocol.tls
      → tls ≡ some (Ir.TlsConfig.registry (codes "gateway"))
      → IsProtocol name protocol tls

-- The address is every interface at the listener's port, in decimal digits.
pub record IsAddress (port : ℕ) (bind_addr : Str) : Type 0 where
  pub digits : Str
  pub everywhere : bind_addr ≡ codes "0.0.0.0:" ++ digits
  pub of_port : (65536 ≤ port) ⊎ (decimal_value 0 digits ≡ port)

-- The client certificates that a listener asks for, if it asks.
pub data IsValidation (v : Option FrontendValidation) (w : Option Ir.FrontendValidation)
    : Type 0 where
  unset : v ≡ none → w ≡ none → IsValidation v w
  set :
      (x : FrontendValidation) (y : Ir.FrontendValidation)
      → v ≡ some x
      → w ≡ some y
      → y.ca_bundle_pem ≡ x.ca_bundle_pem
      → y.allow_insecure_fallback ≡ x.allow_insecure_fallback
      → IsValidation v w

pub record IsConfigOf (g : GatewayState) (l : ListenerState) (c : Ir.ListenerConfig) : Type 0 where
  pub id : c.id ≡ g.namespace ++ b'/' ∷ g.name ++ b'/' ∷ l.name
  pub protocol : IsProtocol l.protocol c.protocol c.tls
  pub bind_addr : IsAddress l.port c.bind_addr
  pub no_redirect : c.redirect_http_to_https ≡ false
  pub validates : IsValidation l.frontend_validation c.frontend_validation

-- A registered listener is the configuration of a programmed listener of one of the gateways.
pub record IsRegistered (gateways : List GatewayState) (c : Ir.ListenerConfig) : Type 0 where
  pub gateway : GatewayState
  pub of_view : Memᴰ gateway gateways
  pub listener : ListenerState
  pub listed : Memᴰ listener gateway.listeners
  pub programmed : listener.programmed ≡ true
  pub config : IsConfigOf gateway listener c

decimal_value-digit :
    (n : ℕ) (ds : Str) (d : ℕ) → decimal_value n (ds ++ (48 + d) ∷ []) ≡ decimal_value n ds * 10 + d
unfolding decimal_value
decimal_value-digit n [] d = omega arith
decimal_value-digit n (c ∷ ds) d = decimal_value-digit (n * 10 + (c - 48)) ds d

tens : {v n : ℕ} → v ≡ n / 10 → v * 10 + n % 10 ≡ n
tens h = omega (arith, h)

-- With enough digits the port is written in full.
decimal_value-decimal : (f n : ℕ) → n < 10 ^ f → decimal_value 0 (decimal f n) ≡ n
unfolding decimal decimal_value
decimal_value-decimal zero n h = omega (arith, h)
decimal_value-decimal (suc f) n h = elim (Bool-cases (ltb n 10)) [
  | inl e ↦ rw e (omega arith)
  | inr e ↦ rw e (
      decimal_value-digit 0 (decimal f (n / 10)) (n % 10)
      ∙ tens (decimal_value-decimal f (n / 10) (omega (arith, h))))
]

protocol_is :
    (name : Str) (p : Ir.Protocol)
    → listener_protocol_to_ir name ≡ some p
    → IsProtocol name p (tls_of p)
unfolding listener_protocol_to_ir
protocol_is name p h = elim (Bool-cases (str_eq name (codes "HTTP"))) [
  | inl e ↦
      is Ir.Protocol.http (ground (arith, h, e))
        (IsProtocol.http ((str_eq_iff name (codes "HTTP")).0 e) refl refl)
  | inr a ↦ elim (Bool-cases (str_eq name (codes "HTTPS"))) [
    | inl e ↦
        is Ir.Protocol.https (ground (arith, h, a, e))
          (IsProtocol.https ((str_eq_iff name (codes "HTTPS")).0 e) refl refl)
    | inr b ↦ elim (Bool-cases (str_eq name (codes "TCP"))) [
      | inl e ↦
          is Ir.Protocol.tcp (ground (arith, h, a, b, e))
            (IsProtocol.tcp ((str_eq_iff name (codes "TCP")).0 e) refl refl)
      | inr c ↦ elim (Bool-cases (str_eq name (codes "UDP"))) [
        | inl e ↦
            is Ir.Protocol.udp (ground (arith, h, a, b, c, e))
              (IsProtocol.udp ((str_eq_iff name (codes "UDP")).0 e) refl refl)
        | inr d ↦ elim (Bool-cases (str_eq name (codes "TLS"))) [
          | inl e ↦
              is Ir.Protocol.tls (ground (arith, h, a, b, c, d, e))
                (IsProtocol.tls ((str_eq_iff name (codes "TLS")).0 e) refl refl)
          | inr e ↦ absurd (ground (arith, h, a, b, c, d, e))
        ]
      ]
    ]
  ]
]
  where
    is : (q : Ir.Protocol) → q ≡ p → IsProtocol name q (tls_of q) → IsProtocol name p (tls_of p)
    is q e x = subst (λ y. IsProtocol name y (tls_of y)) e x

validation_is : (v : Option FrontendValidation) → IsValidation v (Option.map validation v)
validation_is none = IsValidation.unset refl refl
validation_is (some x) = IsValidation.set x (validation x) refl refl refl refl

listener_config_is :
    (g : GatewayState) (l : ListenerState) (p : Ir.Protocol)
    → listener_protocol_to_ir l.protocol ≡ some p
    → IsConfigOf g l (listener_config (id_of g l) l p)
unfolding listener_config
listener_config_is g l p h = record {
  id = refl;
  protocol = protocol_is l.protocol p h;
  bind_addr = record {
    digits = decimal 5 l.port;
    everywhere = refl;
    of_port = elim (Bool-cases (ltb l.port 65536)) [
      | inl e ↦ inr (decimal_value-decimal 5 l.port (ground (arith, e)))
      | inr e ↦ inl (ground (arith, e))
    ];
  };
  no_redirect = refl;
  validates = validation_is l.frontend_validation;
}

-- The entries of the map of listeners: each under its own id, and registered as it should be.
pub record IsEntry (gateways : List GatewayState) (e : Str × Ir.ListenerConfig) : Type 0 where
  pub key : e.1.id ≡ e.0
  pub registered : IsRegistered gateways e.1

pub add_l4_listener-IsEntry :
    (gateways : List GatewayState) (m : Listeners) (g : GatewayState) (l : ListenerState)
    → Memᴰ g gateways
    → Memᴰ l g.listeners
    → ((e : Str × Ir.ListenerConfig) → Memᴰ e m → IsEntry gateways e)
    → (e : Str × Ir.ListenerConfig) → Memᴰ e (add_l4_listener m g l)
    → IsEntry gateways e
unfolding add_l4_listener
add_l4_listener-IsEntry gateways m g l mg ml old e k = elim (Bool-cases l.programmed) [
  | inl p ↦ elim (Bool-cases (is_some (get str_cmp (id_of g l) m))) [
    | inl q ↦ old e (rw (p, q) at k)
    | inr q ↦ inserted p (Option-cases (listener_protocol_to_ir l.protocol)) (rw (p, q) at k)
  ]
  | inr p ↦ old e (rw p at k)
]
  where
    at_new :
        (p : Ir.Protocol)
        → l.programmed ≡ true
        → listener_protocol_to_ir l.protocol ≡ some p
        → IsEntry gateways (id_of g l, listener_config (id_of g l) l p)
    at_new p on h = record {
      key = unfold listener_config in refl;
      registered = record {
        gateway = g;
        of_view = mg;
        listener = l;
        listed = ml;
        programmed = on;
        config = listener_config_is g l p h;
      };
    }

    inserted :
        l.programmed ≡ true
        → (listener_protocol_to_ir l.protocol ≡ none)
          ⊎ ((p : Ir.Protocol) × (listener_protocol_to_ir l.protocol ≡ some p))
        → Memᴰ e (insert_known (id_of g l) l (listener_protocol_to_ir l.protocol) m)
        → IsEntry gateways e
    inserted on (inl h) x = old e (rw h at x)
    inserted on (inr (p, h)) x =
        elim (upsert-mem str_cmp (id_of g l) (λ _. listener_config (id_of g l) l p) m (rw h at x)) [
          | inl y ↦ old e y
          | inr (inl y) ↦ subst (IsEntry gateways) (sym y) (at_new p on h)
          | inr (inr (j, v, c, y, z)) ↦ subst (IsEntry gateways) (sym z) (
              subst (λ i. IsEntry gateways (i, listener_config (id_of g l) l p))
                (str_cmp-IsOrder.same (id_of g l) j c) (at_new p on h))
        ]
