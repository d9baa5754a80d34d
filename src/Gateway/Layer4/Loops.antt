-- ===== src/Gateway/Layer4/Loops.antt =====
-- What the loops over listeners, parents and gateways keep: each route is of some listener, which is
-- registered where it is programmed.
use mathlib.Core.List.{Memᴰ}
use mathlib.Core.Path.{subst}
use proxy.Common.{
  ◌≡◌, refl, sym, ◌⊎◌, inl, inr, true, false, Option, none, some, List, [], ◌∷◌, is_some,
  Bool-cases, Memᴰ-append,
}
use proxy.Common.Text.{Str}
use proxy.Common.Order.{str_cmp}
use proxy.Common.BTreeMap.{IsOrdered}
use proxy.Ir
use proxy.Gateway.Model.View.{ParentRef, ListenerState, GatewayState}
use proxy.Gateway.Effective.{find_gateway, parent_ns}
use proxy.Gateway.Layer4.Listeners.{
  Layer4, Listeners, id_of, listener_protocol_to_ir, add_l4_listener, push, each_listener,
  on_gateway, each_parent,
}
use proxy.Gateway.Layer4.{each_gateway}
use proxy.Gateway.Layer4.Config.{IsEntry, add_l4_listener-IsEntry}
use proxy.Gateway.Layer4.Registered.{
  is_registered, add_l4_listener-IsOrdered, add_l4_listener-keeps, add_l4_listener-registers,
}

-- `P r g l` says that the route r is one for the listener l of the gateway g.
module _ (P : Ir.L4Route → GatewayState → ListenerState → Type 0)
    (gateways : List GatewayState) where
  -- A route has such a listener and its id, and the listener is registered where it is programmed.
  pub record HasListener (listeners : Listeners) (r : Ir.L4Route) : Type 0 where
    pub gateway : GatewayState
    pub listener : ListenerState
    pub fits : P r gateway listener
    pub id : r.listener_id ≡ id_of gateway listener
    pub registered : (listener.programmed ≡ false) ⊎ (is_registered r.listener_id listeners ≡ true)

  pub record Holds (s : Layer4) : Type 0 where
    pub ordered : IsOrdered str_cmp s.listeners
    pub entries : (e : Str × Ir.ListenerConfig) → Memᴰ e s.listeners → IsEntry gateways e
    pub routes : (r : Ir.L4Route) → Memᴰ r s.l4_routes → HasListener s.listeners r

  -- What a loop makes for a listener.
  pub record Makes (g : GatewayState) (l : ListenerState) (o : Option (List Ir.L4Route))
      : Type 0 where
    pub of_view : Memᴰ g gateways × Memᴰ l g.listeners
    pub known :
        (rs : List Ir.L4Route) → o ≡ some rs → is_some (listener_protocol_to_ir l.protocol) ≡ true
    pub each :
        (rs : List Ir.L4Route) (r : Ir.L4Route)
        → o ≡ some rs
        → Memᴰ r rs
        → P r g l × (r.listener_id ≡ id_of g l)

  push-Holds :
      (g : GatewayState) (l : ListenerState) (rs : List Ir.L4Route) (s : Layer4)
      → Makes g l (some rs)
      → Holds s
      → Holds (push g l rs s)
  push-Holds g l rs s k h = record {
    ordered = add_l4_listener-IsOrdered s.listeners g l h.ordered;
    entries = add_l4_listener-IsEntry gateways s.listeners g l k.of_view.0 k.of_view.1 h.entries;
    routes = λ r m. elim (Memᴰ-append s.l4_routes rs m) [
      | inl q ↦
          let old = h.routes r q in
          record {
            gateway = old.gateway;
            listener = old.listener;
            fits = old.fits;
            id = old.id;
            registered = elim old.registered [
              | inl off ↦ inl off
              | inr on ↦ inr (add_l4_listener-keeps r.listener_id s.listeners g l h.ordered on)
            ];
          }
      | inr q ↦
          let (p, e) = k.each rs r refl q in
          record {
            gateway = g;
            listener = l;
            fits = p;
            id = e;
            registered = elim (Bool-cases l.programmed) [
              | inl on ↦ inr (
                  subst (λ i. is_registered i (add_l4_listener s.listeners g l) ≡ true) (sym e)
                    (add_l4_listener-registers s.listeners g l h.ordered (k.known rs refl) on))
              | inr off ↦ inl off
            ];
          }
    ];
  }

  made :
      (g : GatewayState) (l : ListenerState) (o : Option (List Ir.L4Route)) (s : Layer4)
      → Makes g l o
      → Holds s
      → Holds (elim o [ none ↦ s | some rs ↦ push g l rs s ])
  made g l none s k h = h
  made g l (some rs) s k h = push-Holds g l rs s k h

  each_listener-Holds :
      (g : GatewayState) (f : ListenerState → Option (List Ir.L4Route)) (ls : List ListenerState)
      (s : Layer4)
      → ((l : ListenerState) → Memᴰ l ls → Makes g l (f l))
      → Holds s
      → Holds (each_listener g f ls s)
  unfolding each_listener
  each_listener-Holds g f [] s k h = h
  each_listener-Holds g f (l ∷ ls) s k h =
      each_listener-Holds g f ls _ (λ x m. k x (Memᴰ.tail m))
        (made g l (f l) s (k l (Memᴰ.head refl)) h)

  pub each_gateway-Holds :
      (f : GatewayState → ListenerState → Option (List Ir.L4Route)) (gs : List GatewayState)
      (s : Layer4)
      → ((g : GatewayState)
          → Memᴰ g gs
          → (l : ListenerState) → Memᴰ l g.listeners
          → Makes g l (f g l))
      → Holds s
      → Holds (each_gateway f gs s)
  unfolding each_gateway
  each_gateway-Holds f [] s k h = h
  each_gateway-Holds f (g ∷ gs) s k h =
      each_gateway-Holds f gs _ (λ x m. k x (Memᴰ.tail m))
        (each_listener-Holds g (f g) g.listeners s (k g (Memᴰ.head refl)) h)

  found :
      (o : Option GatewayState) (f : GatewayState → ListenerState → Option (List Ir.L4Route))
      (s : Layer4)
      → ((g : GatewayState)
          → o ≡ some g
          → (l : ListenerState) → Memᴰ l g.listeners
          → Makes g l (f g l))
      → Holds s
      → Holds (on_gateway o (λ g. each_listener g (f g) g.listeners) s)
  found none f s k h = h
  found (some g) f s k h = each_listener-Holds g (f g) g.listeners s (k g refl) h

  pub each_parent-Holds :
      (ns : Str) (f : ParentRef → GatewayState → ListenerState → Option (List Ir.L4Route))
      (parents : List ParentRef) (s : Layer4)
      → ((p : ParentRef)
          → Memᴰ p parents
          → (g : GatewayState) → find_gateway gateways (parent_ns ns p) p.name ≡ some g
          → (l : ListenerState) → Memᴰ l g.listeners
          → Makes g l (f p g l))
      → Holds s
      → Holds (each_parent gateways ns f parents s)
  unfolding each_parent
  each_parent-Holds ns f [] s k h = h
  each_parent-Holds ns f (p ∷ ps) s k h =
      each_parent-Holds ns f ps _ (λ x m. k x (Memᴰ.tail m))
        (found (find_gateway gateways (parent_ns ns p) p.name) (f p) s (k p (Memᴰ.head refl)) h)
