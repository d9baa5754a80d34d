-- ===== src/Gateway/Effective/Attached.antt =====
-- What attaches a route's host name to a listener, and what leaves it without one.
use mathlib.Core.List.{Memᴰ}
use proxy.Common.{
  ◌≡◌, refl, sym, ap, ◌∙◌, inl, inr, Bool, true, false, ◌&&◌, ◌||◌, Option, none, some, List, [],
  ◌∷◌, arith, is_some_and, Bool-cases, Option-cases, &&-split, find_sound, filter_sound,
  filter_map_sound, any_complete,
}
use proxy.Common.Text.{Str, codes, str_eq, str_eq_iff, is_empty}
use proxy.Gateway.Hostnames.{HostnameMatch, parse_listener_hostname, intersect_hostnames}
use proxy.Gateway.Hostnames.Overlap.{hits, any_hits, intersect_hostname_pair_exact}
use proxy.Gateway.Namespaces.{listener_allows_kind, namespace_allowed}
use proxy.Gateway.Model.{GatewayView}
use proxy.Gateway.Model.View.{ParentRef, ListenerState, GatewayState, ListenerSetState}
use proxy.Gateway.Effective.{
  RouteHostnames, Parent, selected, find_parent, find_set, find_gateway, from_set, from_gateway,
  allowed_of, group_name, admits, attached, own_hostname,
}

-- A listener that serves traffic for a parent reference: a programmed one of the named gateway, or
-- one of the named listener set where that is programmed.
pub data Serves (view : GatewayView) (ns name : Str) (l : ListenerState) : Type 0 where
  gateway :
      (g : GatewayState)
      → Memᴰ g view.gateways
      → (g.namespace ≡ ns) × (g.name ≡ name)
      → Memᴰ l g.listeners
      → l.programmed ≡ true
      → Serves view ns name l
  listener_set :
      (s : ListenerSetState)
      → Memᴰ s view.listener_sets
      → (s.namespace ≡ ns) × (s.name ≡ name)
      → Memᴰ l s.listeners
      → s.programmed ≡ true
      → Serves view ns name l

-- The host names that the route and the listener accept; one that has none accepts all.
abbrev pub route_accepts : Str → RouteHostnames → Bool
route_accepts host route = is_empty route.hostnames || any_hits host route.hostnames

abbrev pub pattern_accepts : Str → Option Str → Bool
pattern_accepts host none = true
pattern_accepts host (some lh) = hits host (parse_listener_hostname lh)

abbrev pub listener_accepts : Str → ListenerState → Bool
listener_accepts host l = pattern_accepts host l.hostname

both : (ns name a b : Str) → (str_eq a ns && str_eq b name) ≡ true → (a ≡ ns) × (b ≡ name)
both ns name a b h =
    let (p, q) = &&-split (str_eq a ns) (str_eq b name) h in
    ((str_eq_iff a ns).0 p, (str_eq_iff b name).0 q)

module _ (view : GatewayView) (parent : ParentRef) (ns : Str) (l : ListenerState) where
  from_set-Serves :
      (o : Option ListenerSetState)
      → find_set view ns parent.name ≡ o
      → Memᴰ l (from_set view parent o).listeners
      → Serves view ns parent.name l × (selected parent l ≡ true)
  from_set-Serves none e m = elim m [ ]
  from_set-Serves (some s) e m = elim (Bool-cases s.programmed) [
    | inl on ↦
        let (k, sel) = filter_sound (selected parent) s.listeners (rw on at m) in
        let (ms, eq) = find_sound _ view.listener_sets s e in
        (Serves.listener_set s ms (both ns parent.name s.namespace s.name eq) k on, sel)
    | inr off ↦ elim (rw off at m) [ ]
  ]

  from_gateway-Serves :
      (o : Option GatewayState)
      → find_gateway view.gateways ns parent.name ≡ o
      → Memᴰ l (from_gateway view parent o).listeners
      → Serves view ns parent.name l × (selected parent l ≡ true)
  from_gateway-Serves none e m = elim m [ ]
  from_gateway-Serves (some g) e m =
      let (k, t) = filter_sound _ g.listeners m in
      let (on, sel) = &&-split l.programmed (selected parent l) t in
      let (mg, eq) = find_sound _ view.gateways g e in
      (Serves.gateway g mg (both ns parent.name g.namespace g.name eq) k on, sel)

  pub find_parent-Serves :
      Memᴰ l (find_parent view ns parent).listeners
      → Serves view ns parent.name l × (selected parent l ≡ true)
  unfolding find_parent
  find_parent-Serves m = elim (Bool-cases (str_eq parent.kind (codes "ListenerSet"))) [
    | inl e ↦ from_set-Serves (find_set view ns parent.name) refl (rw e at m)
    | inr e ↦ from_gateway-Serves (find_gateway view.gateways ns parent.name) refl (rw e at m)
  ]

pub is_empty-nil : (hs : List HostnameMatch) → is_empty hs ≡ true → hs ≡ []
is_empty-nil [] h = refl
is_empty-nil (x ∷ xs) h = absurd (ground arith)

-- A name in the intersection is one that both sides accept.
pub intersect_accepts :
    (hs : List HostnameMatch) (lh : Option Str) (host : Str) {h : HostnameMatch}
    → Memᴰ h (intersect_hostnames hs lh)
    → hits host h ≡ true
    → (any_hits host hs ≡ true) × (pattern_accepts host lh ≡ true)
unfolding intersect_hostnames
intersect_accepts hs none host {h} m k = (any_complete (λ p. hits host p) hs h m k, refl)
intersect_accepts hs (some lh) host {h} m k =
    let (r, mr, e) = filter_map_sound _ hs m in
    let exact = intersect_hostname_pair_exact r (parse_listener_hostname lh) host in
    let t : is_some_and (λ x. hits host x) (some h) ≡ true = k in
    let (p, q) =
      &&-split (hits host r) (hits host (parse_listener_hostname lh))
        (sym exact ∙ ap (λ o. is_some_and (λ x. hits host x) o) e ∙ t) in
    (any_complete (λ p. hits host p) hs r mr p, q)

pub own_accepts :
    (l : ListenerState) (host : Str)
    → hits host (own_hostname l) ≡ true
    → listener_accepts host l ≡ true
own_accepts l host h = elim (Option-cases l.hostname) [
  | inl e ↦ rw e refl
  | inr (lh, e) ↦ rw e (rw e at h)
]

-- On a parent that was not found, no listener is attached.
pub no_parent :
    (view : GatewayView) (route : RouteHostnames) (kind ns name : Str) (p : Parent)
    → p.found ≡ false
    → attached view route kind ns name p ≡ []
unfolding attached
no_parent view route kind ns name p f = ground arith

pub admits_split :
    (view : GatewayView) (route : RouteHostnames) (kind ns name : Str) (p : Parent)
    (l : ListenerState)
    → admits view route kind ns name p l ≡ true
    → (listener_allows_kind (allowed_of p ns name l) group_name kind ≡ true)
      × (namespace_allowed
            (allowed_of p ns name l).namespaces
            route.namespace
            ns
            view.namespace_labels
          ≡ true)
unfolding admits
admits_split view route kind ns name p l h = ground arith
