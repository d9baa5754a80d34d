-- ===== src/Gateway/Effective/Complete.antt =====
-- Every host name that a route and an admitting listener accept is served on that listener.
use mathlib.Core.List.{Memᴰ}
use mathlib.Core.Path.{subst, sym}
use proxy.Common.{
  ap, map_complete, ◌≡◌, refl, inl, inr, true, ◌||◌, Option, none, some, List, [], ◌∷◌, arith,
  Bool-cases, Option-cases, any_sound, any_complete, filter_complete, flat_map_complete,
  filter_map_complete, if-Memᴰ,
}
use proxy.Common.Text.{Str, is_empty}
use proxy.Gateway.Hostnames.{
  HostnameMatch, to_ir_hostname, parse_listener_hostname, hostname_intersects, is_hostname_subset,
  intersect_hostname_pair, intersect_hostnames, listener_hostname_intersects,
}
use proxy.Gateway.Hostnames.Overlap.{hits, any_hits, overlap, intersect_hostname_pair_exact}
use proxy.Compile.Request.{ir_hostname_matches}
use proxy.Gateway.Namespaces.{listener_allows_kind, namespace_allowed}
use proxy.Gateway.Model.{GatewayView}
use proxy.Gateway.Model.View.{ParentRef, ListenerState}
use proxy.Gateway.Effective.{
  RouteHostnames, EffectiveHostname, Parent, anywhere, parent_ns, find_parent, allowed_of,
  group_name, admits, attached, listener_id, on_listener, own_hostname, hostnames_on,
  without_hostnames, with_hostnames, effective_on, compute_effective_hostnames,
}
use proxy.Gateway.Effective.Attached.{route_accepts, pattern_accepts, listener_accepts}

-- The listener's test passes where one host name is accepted by both.
accepted-listener_hostname_intersects :
    (host : Str) (lh : Option Str) (hs : List HostnameMatch)
    → (is_empty hs || any_hits host hs) ≡ true
    → pattern_accepts host lh ≡ true
    → listener_hostname_intersects lh hs ≡ true
unfolding listener_hostname_intersects hostname_intersects
accepted-listener_hostname_intersects host lh [] r a = ground arith
accepted-listener_hostname_intersects host none (h ∷ hs) r a = refl
accepted-listener_hostname_intersects host (some lh) (h ∷ hs) r a =
    let (p, m, k) = any_sound (λ p. hits host p) (h ∷ hs) r in
    any_complete (λ q. hostname_intersects q (parse_listener_hostname lh)) (h ∷ hs) p m
      (elim (overlap p (parse_listener_hostname lh) host k a) [
        | inl e ↦ rw e refl
        | inr e ↦ elim (Bool-cases (is_hostname_subset p (parse_listener_hostname lh))) [
          | inl f ↦ rw f refl
          | inr f ↦ rw (f, e) refl
        ]
      ])

-- The intersection has a name that matches what both sides accept.
accepts-intersect :
    (host : Str) (lh : Option Str) (hs : List HostnameMatch)
    → any_hits host hs ≡ true
    → pattern_accepts host lh ≡ true
    → (h : HostnameMatch) × Memᴰ h (intersect_hostnames hs lh) × (hits host h ≡ true)
unfolding intersect_hostnames
accepts-intersect host none hs r a = any_sound (λ p. hits host p) hs r
accepts-intersect host (some lh) hs r a =
    let (p, m, k) = any_sound (λ p. hits host p) hs r in
    let l = parse_listener_hostname lh in
    let exact = intersect_hostname_pair_exact p l host in
    elim (Option-cases (intersect_hostname_pair p l)) [
      | inl e ↦ absurd (ground (arith, exact, e, k, a))
      | inr (x, e) ↦ (x, filter_map_complete _ hs m e, ground (arith, exact, e, k, a))
    ]

accepts-own_hostname :
    (host : Str) (l : ListenerState)
    → listener_accepts host l ≡ true
    → hits host (own_hostname l) ≡ true
unfolding ir_hostname_matches to_ir_hostname
accepts-own_hostname host l a = elim (Option-cases l.hostname) [
  | inl e ↦ rw e refl
  | inr (lh, e) ↦ rw e (rw e at a)
]

-- What a route gets on a listener.
abbrev pub Served : List EffectiveHostname → Str → Str → Str → ListenerState → Type 0
Served effs ns name host l =
    (eff : EffectiveHostname) × Memᴰ eff effs
    × (eff.listener_id ≡ some (listener_id ns name l))
    × (eff.listener_port ≡ some l.port)
    × (hits host eff.route_hostname ≡ true)

module _ (view : GatewayView) (route : RouteHostnames) (kind ns name : Str) (p : Parent)
    (l : ListenerState) (host : Str) where
  attached_complete :
      p.found ≡ true
      → Memᴰ l p.listeners
      → admits view route kind ns name p l ≡ true
      → Memᴰ l (attached view route kind ns name p)
  unfolding attached
  attached_complete f m a =
      rw f (filter_complete (admits view route kind ns name p) p.listeners m a)

  without_hostnames_complete :
      (ls : List ListenerState)
      → Memᴰ l ls
      → listener_accepts host l ≡ true
      → Served (without_hostnames p ns name ls) ns name host l
  unfolding without_hostnames
  without_hostnames_complete [] m a = elim m [ ]
  without_hostnames_complete (x ∷ xs) m a = (
    on_listener p ns name l (own_hostname l),
    map_complete (λ k. on_listener p ns name k (own_hostname k)) (x ∷ xs) m,
    refl,
    refl,
    accepts-own_hostname host l a,
  )

  with_hostnames_complete :
      (ls : List ListenerState)
      → p.found ≡ true
      → Memᴰ l ls
      → any_hits host route.hostnames ≡ true
      → listener_accepts host l ≡ true
      → Served (with_hostnames route p ns name ls) ns name host l
  unfolding with_hostnames
  with_hostnames_complete ls f m r a =
      let (h, mh, k) = accepts-intersect host l.hostname route.hostnames r a in
      (
        on_listener p ns name l h,
        if-Memᴰ p.found _ _ f (
            flat_map_complete (hostnames_on route p ns name) ls m (
              map_complete (on_listener p ns name l)
                (intersect_hostnames route.hostnames l.hostname) mh)),
        refl,
        refl,
        k,
      )

  admits_complete :
      listener_allows_kind (allowed_of p ns name l) group_name kind ≡ true
      → namespace_allowed
          (allowed_of p ns name l).namespaces
          route.namespace
          ns
          view.namespace_labels
        ≡ true
      → route_accepts host route ≡ true
      → listener_accepts host l ≡ true
      → admits view route kind ns name p l ≡ true
  unfolding admits
  admits_complete k n r a =
      ground
        (arith, k, n, accepted-listener_hostname_intersects host l.hostname route.hostnames r a)

-- A listener that is selected for a found parent of a route, that serves traffic and that allows the
-- route's kind and its namespace: every host name that the route and the listener both accept is
-- matched by an effective host name with the listener's id and port.
pub compute_effective_hostnames_complete :
    (view : GatewayView) (route : RouteHostnames) (kind host : Str) (parent : ParentRef)
    (l : ListenerState)
    → Memᴰ parent route.parent_refs
    → (find_parent view (parent_ns route.namespace parent) parent).found ≡ true
    → Memᴰ l (find_parent view (parent_ns route.namespace parent) parent).listeners
    → listener_allows_kind
        (allowed_of
          (find_parent view (parent_ns route.namespace parent) parent)
          (parent_ns route.namespace parent)
          parent.name
          l)
        group_name
        kind
      ≡ true
    → namespace_allowed
        (allowed_of
          (find_parent view (parent_ns route.namespace parent) parent)
          (parent_ns route.namespace parent)
          parent.name
          l).namespaces
        route.namespace
        (parent_ns route.namespace parent)
        view.namespace_labels
      ≡ true
    → route_accepts host route ≡ true
    → listener_accepts host l ≡ true
    → Served
        (compute_effective_hostnames view route kind)
        (parent_ns route.namespace parent)
        parent.name
        host
        l
unfolding compute_effective_hostnames effective_on
compute_effective_hostnames_complete view route kind host parent l mp f ml k n r a =
    let ns = parent_ns route.namespace parent in
    let p = find_parent view ns parent in
    let at_l =
      attached_complete view route kind ns parent.name p l host f ml
        (admits_complete view route kind ns parent.name p l host k n r a) in
    let ls = attached view route kind ns parent.name p in
    let (eff, m, x, y, z) : Served (effective_on view route kind parent) ns parent.name host l =
      elim (Bool-cases (is_empty route.hostnames)) [
        | inl e ↦
            rw e (without_hostnames_complete view route kind ns parent.name p l host ls at_l a)
        | inr e ↦ rw e (
            with_hostnames_complete view route kind ns parent.name p l host ls f at_l
              (ground (arith, r, e)) a)
      ] in
    (eff, flat_map_complete (effective_on view route kind) route.parent_refs mp m, x, y, z)

-- A route without host names, none of the listeners of one of its parents admitting it: the route gets
-- the catch-all host name, on no listener and so on every port.
pub unadmitted-anywhere :
    (view : GatewayView) (route : RouteHostnames) (kind : Str) (parent : ParentRef)
    → Memᴰ parent route.parent_refs
    → route.hostnames ≡ []
    → attached view route kind
        (parent_ns route.namespace parent)
        parent.name
        (find_parent view (parent_ns route.namespace parent) parent)
      ≡ []
    → Memᴰ (anywhere HostnameMatch.any) (compute_effective_hostnames view route kind)
unfolding compute_effective_hostnames effective_on without_hostnames
unadmitted-anywhere view route kind parent mp n a =
    flat_map_complete (effective_on view route kind) route.parent_refs mp (
      if-Memᴰ (is_empty route.hostnames) _ _ (ap is_empty n) (
        subst
          (λ ls. Memᴰ (anywhere HostnameMatch.any) (
            without_hostnames (find_parent view (parent_ns route.namespace parent) parent)
              (parent_ns route.namespace parent) parent.name ls))
          (sym a) (Memᴰ.head refl)))
