-- ===== src/Gateway/ToIr/Unattached.antt =====
-- A route whose parent is a gateway none of whose listeners takes it is served all the same.
use mathlib.Core.List.{Memᴰ}
use mathlib.Core.Path.{subst}
use proxy.Common.{
  map, map_complete, flat_map_complete, Memᴰ-append_left, filter_sound, &&-split, ◌≡◌, ◌≢◌, filter,
  refl, sym, ap, ◌∙◌, true, false, inl, inr, ◌&&◌, none, some, List, [], ◌∷◌, arith, Bool-cases,
  unwrap_or, All, All-Memᴰ, if◌then◌else◌,
}
use proxy.Common.Text.{Str, codes, str_eq, str_eq_iff, is_empty}
use proxy.Common.KeyMap.{get}
use proxy.Ir
use proxy.Gateway.Hostnames.{HostnameMatch, to_ir_hostname}
use proxy.Gateway.Namespaces.{AllowedRoutes, listener_allows_kind, namespace_allowed}
use proxy.Gateway.Model.{GatewayView}
use proxy.Gateway.Model.View.{ParentRef, ListenerState, GatewayState}
use proxy.Gateway.Model.Routing.{HttpRouteState}
use proxy.Gateway.Effective.{
  anywhere, parent_ns, selected, find_gateway, find_parent, from_gateway, key_eq, default_allowed,
  group_name, admits, attached, compute_effective_hostnames,
}
use proxy.Gateway.Effective.Complete.{unadmitted-anywhere}
use proxy.Gateway.ToIr.{rules_of_http, http_hostnames, translate_view_to_ir}
use proxy.Gateway.ToIr.Groups.{with_rules, http_entries}
use proxy.Gateway.ToIr.Lookup.{HasPlainNames}
use proxy.Gateway.ToIr.Reached.{HasPlainListeners, entry-HostOf}

-- What a listener of a gateway allows: what the view has for it, or the default.
abbrev pub allowed_on : GatewayView → Str → Str → ListenerState → AllowedRoutes
allowed_on view ns name l =
    unwrap_or default_allowed (get key_eq (ns, name, l.name) view.listener_allowed)

-- A listener of the gateway that a parent reference of an HTTPRoute names, closed to the route: it is
-- not programmed, it is not the section or the port that the reference names, or it does not allow the
-- kind or the namespace of the route.
pub data IsClosed (view : GatewayView) (r : HttpRouteState) (parent : ParentRef) (l : ListenerState)
    : Type 0 where
  unprogrammed : l.programmed ≡ false → IsClosed view r parent l
  unselected : selected parent l ≡ false → IsClosed view r parent l
  of_kind :
      listener_allows_kind
          (allowed_on view (parent_ns r.namespace parent) parent.name l)
          group_name
          (codes "HTTPRoute")
        ≡ false
      → IsClosed view r parent l
  of_namespace :
      namespace_allowed
          (allowed_on view (parent_ns r.namespace parent) parent.name l).namespaces
          r.namespace
          (parent_ns r.namespace parent)
          view.namespace_labels
        ≡ false
      → IsClosed view r parent l

no_members : (ls : List ListenerState) → ((l : ListenerState) → Memᴰ l ls → ⊥) → ls ≡ []
no_members [] h = refl
no_members (l ∷ ls) h = absurd (h l (Memᴰ.head refl))

parents_there : (ps : List ParentRef) {p : ParentRef} → Memᴰ p ps → is_empty ps ≡ false
parents_there [] m = elim m [ ]
parents_there (p ∷ ps) m = refl

module _ (view : GatewayView) (r : HttpRouteState) (parent : ParentRef) (g : GatewayState) where
  admitted :
      (l : ListenerState)
      → admits view
          (http_hostnames r)
          (codes "HTTPRoute")
          (parent_ns r.namespace parent)
          parent.name
          (from_gateway view parent (some g))
          l
        ≡ true
      → (listener_allows_kind
            (allowed_on view (parent_ns r.namespace parent) parent.name l)
            group_name
            (codes "HTTPRoute")
          ≡ true)
        × (namespace_allowed
              (allowed_on view (parent_ns r.namespace parent) parent.name l).namespaces
              r.namespace
              (parent_ns r.namespace parent)
              view.namespace_labels
            ≡ true)
  unfolding admits
  admitted l h = ground arith

  closed_attached :
      All (IsClosed view r parent) g.listeners
      → attached view
          (http_hostnames r)
          (codes "HTTPRoute")
          (parent_ns r.namespace parent)
          parent.name
          (from_gateway view parent (some g))
        ≡ []
  unfolding attached admits
  closed_attached closed = no_members _ (λ l m.
      let (m1, a) =
        filter_sound _ (filter (λ k. k.programmed && selected parent k) g.listeners) m in
      let (m2, b) = filter_sound (λ k. k.programmed && selected parent k) g.listeners m1 in
      let (on, here) = &&-split l.programmed (selected parent l) b in
      let (kind, ns) = admitted l a in
      refuted l on here kind ns (All-Memᴰ (IsClosed view r parent) g.listeners closed m2))
    where
      refuted :
          (l : ListenerState)
          → l.programmed ≡ true
          → selected parent l ≡ true
          → listener_allows_kind
              (allowed_on view (parent_ns r.namespace parent) parent.name l)
              group_name
              (codes "HTTPRoute")
            ≡ true
          → namespace_allowed
              (allowed_on view (parent_ns r.namespace parent) parent.name l).namespaces
              r.namespace
              (parent_ns r.namespace parent)
              view.namespace_labels
            ≡ true
          → IsClosed view r parent l
          → ⊥
      refuted l on here kind ns (IsClosed.unprogrammed e) = ground (arith, on, e)
      refuted l on here kind ns (IsClosed.unselected e) = ground (arith, here, e)
      refuted l on here kind ns (IsClosed.of_kind e) = ground (arith, kind, e)
      refuted l on here kind ns (IsClosed.of_namespace e) = ground (arith, ns, e)

  parent_is :
      parent.kind ≢ codes "ListenerSet"
      → find_gateway view.gateways (parent_ns r.namespace parent) parent.name ≡ some g
      → find_parent view (parent_ns r.namespace parent) parent ≡ from_gateway view parent (some g)
  unfolding find_parent
  parent_is k f = elim (Bool-cases (str_eq parent.kind (codes "ListenerSet"))) [
    | inl e ↦ absurd (k ((str_eq_iff parent.kind (codes "ListenerSet")).0 e))
    | inr e ↦ rw (e, f) refl
  ]

-- An HTTPRoute without host names, one of its parents a gateway none of whose listeners is open to it:
-- the route table has a host with all of the route's rules that is for every host name and every port.
-- The view's host names, if exact, do not start with an asterisk.
pub unattached_served_anywhere :
    (view : GatewayView) (r : HttpRouteState) (parent : ParentRef) (g : GatewayState)
    → HasPlainNames view
    → HasPlainListeners view
    → Memᴰ r view.http_routes
    → Memᴰ parent r.parent_refs
    → r.hostnames ≡ []
    → parent.kind ≢ codes "ListenerSet"
    → find_gateway view.gateways (parent_ns r.namespace parent) parent.name ≡ some g
    → All (IsClosed view r parent) g.listeners
    → (host : Ir.HostRoute) × Memᴰ host (translate_view_to_ir view).hosts
      × (host.hostname ≡ Ir.HostnameMatch.any)
      × (host.listener_hostname ≡ none)
      × (host.listener_port ≡ none)
      × All (λ rule. Memᴰ rule host.rules) (rules_of_http r (anywhere HostnameMatch.any))
unfolding to_ir_hostname
unattached_served_anywhere view r parent g pn pl mr mp n k f closed =
    let ns = parent_ns r.namespace parent in
    let none_attached : attached view (http_hostnames r) (codes "HTTPRoute") ns parent.name
          (find_parent view ns parent)
        ≡ [] =
      ap (attached view (http_hostnames r) (codes "HTTPRoute") ns parent.name)
        (parent_is view r parent g k f)
      ∙ closed_attached view r parent g closed in
    let eff =
      unadmitted-anywhere view (http_hostnames r) (codes "HTTPRoute") parent mp n none_attached in
    let h = entry-HostOf view (with_rules (rules_of_http r) (anywhere HostnameMatch.any)) pn pl (
      Memᴰ-append_left _ _ (
        flat_map_complete (http_entries view) view.http_routes mr (
          subst
            (λ b. Memᴰ (with_rules (rules_of_http r) (anywhere HostnameMatch.any)) (
              if b
              then []
              else map (with_rules (rules_of_http r))
                  (compute_effective_hostnames view (http_hostnames r) (codes "HTTPRoute"))))
            (sym (parents_there r.parent_refs mp))
            (map_complete (with_rules (rules_of_http r)) _ eff)))) in
    (h.host, h.known, h.hostname, h.listener_hostname, h.listener_port, h.rules)
