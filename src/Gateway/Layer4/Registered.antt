-- ===== src/Gateway/Layer4/Registered.antt =====
-- How a listener is registered: no key is lost, and a programmed listener gets one.

use mathlib.Core.Path.{subst}
use proxy.Common.{
  ◌≡◌, sym, ap, ◌∙◌, inl, inr, Bool, true, Option, none, some, arith, is_some, Bool-cases,
  Option-cases,
}
use proxy.Common.Text.{Str}
use proxy.Common.Order.{str_cmp, str_cmp-IsOrder}
use proxy.Common.BTreeMap.{
  get, upsert, is_eq, IsOrdered, upsert-IsOrdered, get-upsert_self, get-upsert_other,
}
use proxy.Ir
use proxy.Gateway.Model.View.{ListenerState, GatewayState}
use proxy.Gateway.Layer4.Listeners.{
  Listeners, id_of, listener_protocol_to_ir, listener_config, insert_known, add_l4_listener,
}

abbrev pub is_registered : Str → Listeners → Bool
is_registered id listeners = is_some (get str_cmp id listeners)

-- The new key is there after an insertion, and every old one.
upsert_self :
    (id : Str) (f : Option Ir.ListenerConfig → Ir.ListenerConfig) (m : Listeners)
    → IsOrdered str_cmp m
    → is_registered id (upsert str_cmp id f m) ≡ true
upsert_self id f m s = ap is_some (get-upsert_self str_cmp str_cmp-IsOrder id f m s)

upsert-keeps :
    (i id : Str) (f : Option Ir.ListenerConfig → Ir.ListenerConfig) (m : Listeners)
    → IsOrdered str_cmp m
    → is_registered i m ≡ true
    → is_registered i (upsert str_cmp id f m) ≡ true
upsert-keeps i id f m s h = elim (Bool-cases (is_eq (str_cmp i id))) [
  | inl e ↦
      subst (λ k. is_registered k (upsert str_cmp id f m) ≡ true)
        (sym (str_cmp-IsOrder.same i id (ground (arith, e)))) (upsert_self id f m s)
  | inr e ↦ ap is_some (get-upsert_other str_cmp str_cmp-IsOrder i id f m e) ∙ h
]

pub add_l4_listener-IsOrdered :
    (m : Listeners) (g : GatewayState) (l : ListenerState)
    → IsOrdered str_cmp m
    → IsOrdered str_cmp (add_l4_listener m g l)
unfolding add_l4_listener
add_l4_listener-IsOrdered m g l s = elim (Bool-cases l.programmed) [
  | inl p ↦ elim (Bool-cases (is_registered (id_of g l) m)) [
    | inl k ↦ rw (p, k) s
    | inr k ↦ rw (p, k) (inserted (listener_protocol_to_ir l.protocol))
  ]
  | inr p ↦ rw p s
]
  where
    inserted : (o : Option Ir.Protocol) → IsOrdered str_cmp (insert_known (id_of g l) l o m)
    inserted none = s
    inserted (some q) =
        upsert-IsOrdered str_cmp str_cmp-IsOrder (id_of g l) (λ _. listener_config (id_of g l) l q)
          m s

pub add_l4_listener-keeps :
    (i : Str) (m : Listeners) (g : GatewayState) (l : ListenerState)
    → IsOrdered str_cmp m
    → is_registered i m ≡ true
    → is_registered i (add_l4_listener m g l) ≡ true
unfolding add_l4_listener
add_l4_listener-keeps i m g l s h = elim (Bool-cases l.programmed) [
  | inl p ↦ elim (Bool-cases (is_registered (id_of g l) m)) [
    | inl k ↦ rw (p, k) h
    | inr k ↦ rw (p, k) (inserted (listener_protocol_to_ir l.protocol))
  ]
  | inr p ↦ rw p h
]
  where
    inserted : (o : Option Ir.Protocol) → is_registered i (insert_known (id_of g l) l o m) ≡ true
    inserted none = h
    inserted (some q) = upsert-keeps i (id_of g l) (λ _. listener_config (id_of g l) l q) m s h

-- A programmed listener of a known protocol is registered.
pub add_l4_listener-registers :
    (m : Listeners) (g : GatewayState) (l : ListenerState)
    → IsOrdered str_cmp m
    → is_some (listener_protocol_to_ir l.protocol) ≡ true
    → l.programmed ≡ true
    → is_registered (id_of g l) (add_l4_listener m g l) ≡ true
unfolding add_l4_listener
add_l4_listener-registers m g l s q p = elim (Bool-cases (is_registered (id_of g l) m)) [
  | inl k ↦ rw (p, k) k
  | inr k ↦ elim (Option-cases (listener_protocol_to_ir l.protocol)) [
    | inl e ↦ absurd (ground (arith, q, e))
    | inr (r, e) ↦ rw (p, k, e) (upsert_self (id_of g l) (λ _. listener_config (id_of g l) l r) m s)
  ]
]
