-- ===== src/Gateway/Effective/Sound.antt =====
-- Where an effective host name of a route comes from.
use mathlib.Core.List.{Memᴰ}
use mathlib.Core.Path.{subst}
use proxy.Common.{
  map_sound, ◌≡◌, refl, sym, ap, ◌⊎◌, inl, inr, true, false, none, some, List, [], ◌∷◌, arith,
  Bool-cases, filter_sound, flat_map_sound, Memᴰ-if,
}
use proxy.Common.Text.{Str, is_empty}
use proxy.Gateway.Hostnames.{HostnameMatch, intersect_hostnames}
use proxy.Gateway.Hostnames.Overlap.{hits}
use proxy.Gateway.Namespaces.{AllowedRoutes, listener_allows_kind, namespace_allowed}
use proxy.Gateway.Model.{GatewayView}
use proxy.Gateway.Model.View.{ParentRef, ListenerState}
use proxy.Gateway.Effective.{
  RouteHostnames, EffectiveHostname, parent_ns, selected, find_parent, anywhere, allowed_of,
  group_name, admits, attached, listener_id, on_listener, own_hostname, hostnames_on,
  without_hostnames, with_hostnames, effective_on, compute_effective_hostnames,
}
use proxy.Gateway.Effective.Attached.{
  Serves, route_accepts, listener_accepts, find_parent-Serves, is_empty-nil, intersect_accepts,
  own_accepts, no_parent, admits_split,
}

-- What holds of an effective host name on a listener, for a host name that it matches.
pub record IsOnListener (view : GatewayView) (route : RouteHostnames) (kind : Str)
    (parent : ParentRef) (host : Str) (eff : EffectiveHostname) : Type 0 where
  pub listener : ListenerState
  pub serves : Serves view (parent_ns route.namespace parent) parent.name listener
  pub wanted : selected parent listener ≡ true
  pub allowed : AllowedRoutes
  pub is_allowed :
      allowed
      ≡ allowed_of
          (find_parent view (parent_ns route.namespace parent) parent)
          (parent_ns route.namespace parent)
          parent.name
          listener
  pub kind_allowed : listener_allows_kind allowed group_name kind ≡ true
  pub ns_allowed :
      namespace_allowed allowed.namespaces route.namespace
        (parent_ns route.namespace parent)
        view.namespace_labels
      ≡ true
  pub names :
      eff.listener_id ≡ some (listener_id (parent_ns route.namespace parent) parent.name listener)
  pub on_port : eff.listener_port ≡ some listener.port
  pub by_route : route_accepts host route ≡ true
  pub by_listener : listener_accepts host listener ≡ true

-- What holds of an effective host name on no listener.
pub record IsUnattached (view : GatewayView) (route : RouteHostnames) (kind : Str)
    (parent : ParentRef) (eff : EffectiveHostname) : Type 0 where
  pub anonymous : eff.listener_id ≡ none
  pub any_port : eff.listener_port ≡ none
  pub no_listener :
      attached view route kind
        (parent_ns route.namespace parent)
        parent.name
        (find_parent view (parent_ns route.namespace parent) parent)
      ≡ []
  pub names :
      ((route.hostnames ≡ []) × (eff.route_hostname ≡ HostnameMatch.any))
      ⊎ (Memᴰ eff.route_hostname route.hostnames
          × ((find_parent view (parent_ns route.namespace parent) parent).found ≡ false))

module _ (view : GatewayView) (route : RouteHostnames) (kind : Str) (parent : ParentRef)
    (host : Str) where
  -- A listener that is attached, and a name on it that both accept.
  attached-IsOnListener :
      (l : ListenerState) (h : HostnameMatch)
      → Memᴰ l (
          attached view route kind
            (parent_ns route.namespace parent)
            parent.name
            (find_parent view (parent_ns route.namespace parent) parent))
      → route_accepts host route ≡ true
      → listener_accepts host l ≡ true
      → IsOnListener view route kind parent host (
          on_listener
            (find_parent view (parent_ns route.namespace parent) parent)
            (parent_ns route.namespace parent)
            parent.name
            l
            h)
  unfolding attached
  attached-IsOnListener l h m r a =
      let ns = parent_ns route.namespace parent in
      let p = find_parent view ns parent in
      elim (Bool-cases p.found) [
        | inl f ↦
            let (k, t) =
              filter_sound (admits view route kind ns parent.name p) p.listeners (rw f at m) in
            let (sv, sel) = find_parent-Serves view parent ns l k in
            let (x, y) = admits_split view route kind ns parent.name p l t in
            record {
              listener = l;
              serves = sv;
              wanted = sel;
              allowed = allowed_of p ns parent.name l;
              is_allowed = refl;
              kind_allowed = x;
              ns_allowed = y;
              names = refl;
              on_port = refl;
              by_route = r;
              by_listener = a;
            }
        | inr f ↦ elim (rw f at m) [ ]
      ]

  -- The names of a route that has none.
  without_hostnames_sound :
      (eff : EffectiveHostname) (ls : List ListenerState)
      → ls
        ≡ attached view route kind
            (parent_ns route.namespace parent)
            parent.name
            (find_parent view (parent_ns route.namespace parent) parent)
      → route.hostnames ≡ []
      → Memᴰ eff (
          without_hostnames
            (find_parent view (parent_ns route.namespace parent) parent)
            (parent_ns route.namespace parent)
            parent.name
            ls)
      → hits host eff.route_hostname ≡ true
      → IsOnListener view route kind parent host eff ⊎ IsUnattached view route kind parent eff
  unfolding without_hostnames
  without_hostnames_sound eff [] e n (Memᴰ.head q) h = inr (record {
    anonymous = ap (λ (x : EffectiveHostname). x.listener_id) q;
    any_port = ap (λ (x : EffectiveHostname). x.listener_port) q;
    no_listener = sym e;
    names = inl (n, ap (λ (x : EffectiveHostname). x.route_hostname) q);
  })
  without_hostnames_sound eff [] e n (Memᴰ.tail m) h = elim m [ ]
  without_hostnames_sound eff (l ∷ ls) e n m h =
      let ns = parent_ns route.namespace parent in
      let p = find_parent view ns parent in
      let (k, mk, q) =
        map_sound (λ k. on_listener p ns parent.name k (own_hostname k)) (l ∷ ls) m in
      let hk : hits host (own_hostname k) ≡ true =
        subst (λ (x : EffectiveHostname). hits host x.route_hostname ≡ true) q h in
      inl (
        subst (λ x. IsOnListener view route kind parent host x) (sym q)
          (attached-IsOnListener k (own_hostname k) (subst (λ xs. Memᴰ k xs) e mk) (rw n refl)
            (own_accepts k host hk)))

  -- The names of a route that has some.
  with_hostnames_sound :
      (eff : EffectiveHostname)
      → Memᴰ eff (
          with_hostnames route
            (find_parent view (parent_ns route.namespace parent) parent)
            (parent_ns route.namespace parent)
            parent.name
            (attached view route kind
              (parent_ns route.namespace parent)
              parent.name
              (find_parent view (parent_ns route.namespace parent) parent)))
      → hits host eff.route_hostname ≡ true
      → IsOnListener view route kind parent host eff ⊎ IsUnattached view route kind parent eff
  unfolding with_hostnames
  with_hostnames_sound eff m h =
      let ns = parent_ns route.namespace parent in
      let p = find_parent view ns parent in
      let ls = attached view route kind ns parent.name p in
      elim (Memᴰ-if p.found _ _ m) [
        | inl (f, on) ↦
            let (l, ml, k) = flat_map_sound (hostnames_on route p ns parent.name) ls on in
            let (x, mx, q) =
              map_sound (on_listener p ns parent.name l)
                (intersect_hostnames route.hostnames l.hostname) k in
            let hx : hits host x ≡ true =
              subst (λ (y : EffectiveHostname). hits host y.route_hostname ≡ true) q h in
            let (r, a) = intersect_accepts route.hostnames l.hostname host mx hx in
            inl (
              subst (λ y. IsOnListener view route kind parent host y) (sym q)
                (attached-IsOnListener l x ml (ground (arith, r)) a))
        | inr (f, off) ↦
            let (x, mx, q) = map_sound anywhere route.hostnames off in
            inr (record {
              anonymous = ap (λ (y : EffectiveHostname). y.listener_id) q;
              any_port = ap (λ (y : EffectiveHostname). y.listener_port) q;
              no_listener = no_parent view route kind ns parent.name p f;
              names = inr (
                subst (λ n. Memᴰ n route.hostnames)
                    (sym (ap (λ (y : EffectiveHostname). y.route_hostname) q)) mx,
                f,
              );
            })
      ]

-- For a host name that an effective host name of a route matches, one of these holds for a parent
-- reference of the route. The effective host name is on a listener that serves the parent: a
-- programmed one of the named gateway, or one of the named listener set where that is programmed, of
-- the reference's section and port. The listener allows the route's kind and its namespace, route and
-- listener accept the host name, and the port and the id are the listener's. Or it has no listener and
-- no port, and no listener of the parent is attached: then the route has no host names and it is the
-- catch-all, or the parent was not found and it is one of the route's.
pub compute_effective_hostnames_sound :
    (view : GatewayView) (route : RouteHostnames) (kind host : Str) (eff : EffectiveHostname)
    → Memᴰ eff (compute_effective_hostnames view route kind)
    → hits host eff.route_hostname ≡ true
    → (parent : ParentRef) × Memᴰ parent route.parent_refs
      × (IsOnListener view route kind parent host eff ⊎ IsUnattached view route kind parent eff)
unfolding compute_effective_hostnames effective_on
compute_effective_hostnames_sound view route kind host eff m h =
    let (parent, mp, k) = flat_map_sound (effective_on view route kind) route.parent_refs m in
    (
      parent,
      mp,
      elim (Bool-cases (is_empty route.hostnames)) [
        | inl e ↦
            without_hostnames_sound view route kind parent host eff _ refl
              (is_empty-nil route.hostnames e) (rw e at k) h
        | inr e ↦ with_hostnames_sound view route kind parent host eff (rw e at k) h
      ],
    )
