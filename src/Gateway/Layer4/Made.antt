-- ===== src/Gateway/Layer4/Made.antt =====
-- Each loop makes the connection routes that `IsL4Route` describes.
use mathlib.Core.List.{Memᴰ}
use mathlib.Core.Path.{subst}
use proxy.Common.{
  singleton_sound, map_sound, ◌≡◌, refl, sym, ap, ◌⊎◌, inl, inr, Bool, true, false, ◌&&◌, Option,
  none, some, List, [], ◌∷◌, ◌++◌, arith, is_some, any, map, flat_map, if◌then◌else◌, &&-split,
  Memᴰ-append, any_sound, Option-cases, find_sound, filter_map_sound, flat_map_sound,
}
use proxy.Common.Text.{Str, codes, str_eq, str_eq_iff, is_empty, strip_prefix, strip_prefix_iff}
use proxy.Ir
use proxy.Gateway.Hostnames.{
  HostnameMatch, to_ir_hostname, parse_listener_hostname, intersect_hostname_pair,
}
use proxy.Gateway.Model.{GatewayView}
use proxy.Gateway.Model.View.{ParentRef, TlsMode, ListenerState, GatewayState}
use proxy.Gateway.Model.Routing.{TlsRouteState}
use proxy.Gateway.Http.{to_ir_weighted_backend}
use proxy.Gateway.Effective.{EffectiveHostname, find_gateway, parent_ns, section_fits}
use proxy.Gateway.Layer4.Listeners.{id_of, listener_protocol_to_ir}
use proxy.Gateway.Layer4.{
  plain_route, tls_match, tls_hostnames, tls_action, tls_l4_route, unless_empty, tls_route_for,
  ids_of, http_ids, grpc_ids, https_listener_ids, own_ir_hostname, https_route_for, http_route_for,
}
use proxy.Gateway.Layer4.Loops.{Makes}
use proxy.Gateway.Layer4.Origin.{
  IsAt, IsListenerName, IsTlsName, IsTlsAction, IsAsked, IsOwnMatch, IsL4Route,
}

is_protocol :
    (p q : Str)
    → str_eq p q ≡ true
    → is_some (listener_protocol_to_ir q) ≡ true
    → is_some (listener_protocol_to_ir p) ≡ true
is_protocol p q e h =
    subst (λ x. is_some (listener_protocol_to_ir x) ≡ true) (sym ((str_eq_iff p q).0 e)) h

-- What a test lets through.
guarded :
    (b : Bool) (o : Option (List Ir.L4Route)) (rs : List Ir.L4Route)
    → (if b then o else none) ≡ some rs
    → (b ≡ true) × (o ≡ some rs)
guarded true o rs e = (refl, e)
guarded false o rs e = absurd (ground (arith, e))

single :
    (x : Ir.L4Route) (rs : List Ir.L4Route) (r : Ir.L4Route)
    → some (x ∷ []) ≡ some rs
    → Memᴰ r rs
    → r ≡ x
single x rs r e m = singleton_sound (subst (λ l. Memᴰ r l) (sym (ground (arith, e))) m)

some-same : (x rs : List Ir.L4Route) → unless_empty x ≡ some rs → x ≡ rs
some-same [] rs e = absurd (ground (arith, e))
some-same (y ∷ ys) rs e = ground (arith, e)

tls_match-none : (l : ListenerState) → l.hostname ≡ none → tls_match l ≡ HostnameMatch.any
tls_match-none l e = rw e refl

tls_match-some :
    (l : ListenerState) (s : Str) → l.hostname ≡ some s → tls_match l ≡ parse_listener_hostname s
tls_match-some l s e = rw e refl

-- The listener's host name, as the loops read it.
listener_name : (l : ListenerState) → IsListenerName l (tls_match l) (to_ir_hostname (tls_match l))
unfolding parse_listener_hostname strip_prefix to_ir_hostname
listener_name l = elim (Option-cases l.hostname) [
  | inl e ↦
      subst (λ m. IsListenerName l m (to_ir_hostname m)) (sym (tls_match-none l e))
        (IsListenerName.unnamed e refl refl)
  | inr (s, e) ↦
      subst (λ m. IsListenerName l m (to_ir_hostname m)) (sym (tls_match-some l s e))
        (parsed s e (Option-cases (strip_prefix s (codes "*."))))
]
  where
    parsed :
        (s : Str)
        → l.hostname ≡ some s
        → (strip_prefix s (codes "*.") ≡ none)
          ⊎ ((rest : Str) × (strip_prefix s (codes "*.") ≡ some rest))
        → IsListenerName l (parse_listener_hostname s) (to_ir_hostname (parse_listener_hostname s))
    parsed s e (inl n) = rw n (IsListenerName.named s e n refl refl)
    parsed s e (inr (rest, n)) =
        rw n (IsListenerName.under s rest e ((strip_prefix_iff s (codes "*.") rest).0 n) refl refl)

own_ir-tls_match : (l : ListenerState) → own_ir_hostname l ≡ to_ir_hostname (tls_match l)
unfolding to_ir_hostname
own_ir-tls_match l = elim (Option-cases l.hostname) [ inl e ↦ rw e refl | inr (s, e) ↦ rw e refl ]

own_name : (l : ListenerState) → IsListenerName l (tls_match l) (own_ir_hostname l)
own_name l = subst (IsListenerName l (tls_match l)) (sym (own_ir-tls_match l)) (listener_name l)

own_match :
    (l : ListenerState) (r : Ir.L4Route)
    → r.listener_hostname ≡ own_ir_hostname l
    → r.match_ ≡ (if is_some l.hostname then Ir.L4Match.sni (own_ir_hostname l) else Ir.L4Match.any)
    → IsOwnMatch l r.listener_hostname r.match_
own_match l r h m = elim (Option-cases l.hostname) [
  | inl e ↦ IsOwnMatch.every e (ground (arith, m, e))
  | inr (s, e) ↦
      IsOwnMatch.own s e (subst (λ x. r.match_ ≡ Ir.L4Match.sni x) (sym h) (ground (arith, m, e)))
]

tls_action-IsTlsAction :
    (mode : Option TlsMode) (bs : List Ir.WeightedBackend)
    → IsTlsAction mode bs (tls_action mode bs)
tls_action-IsTlsAction none bs = IsTlsAction.unset refl refl
tls_action-IsTlsAction (some TlsMode.terminate) bs = IsTlsAction.terminates refl refl
tls_action-IsTlsAction (some TlsMode.passthrough) bs = IsTlsAction.passes refl refl

tls_hostnames-IsTlsName :
    (hs : List HostnameMatch) (lm h : HostnameMatch)
    → Memᴰ h (tls_hostnames hs lm)
    → IsTlsName hs lm h
unfolding tls_hostnames
tls_hostnames-IsTlsName [] lm h m = IsTlsName.of_listener refl (singleton_sound m)
tls_hostnames-IsTlsName (x ∷ hs) lm h m =
    let (rh, k, e) = filter_map_sound (λ rh. intersect_hostname_pair rh lm) (x ∷ hs) m in
    IsTlsName.of_route rh k e

-- An id among those of a route's effective host names.
asked_by :
    {id : Str} (ps : List ParentRef) (effs : List EffectiveHostname)
    → Memᴰ id (if is_empty ps then [] else ids_of effs)
    → (is_empty ps ≡ false) × (e : EffectiveHostname) × Memᴰ e effs × (e.listener_id ≡ some id)
asked_by [] effs m = elim m [ ]
asked_by (p ∷ ps) effs m =
    let (e, k, q) = filter_map_sound (λ (e : EffectiveHostname). e.listener_id) effs m in
    (refl, e, k, q)

module _ (view : GatewayView) (protocol : Str) (action : Ir.L4Action) (ns : Str)
    (parents : List ParentRef) (p : ParentRef) (g : GatewayState) (l : ListenerState)
    (mp : Memᴰ p parents) (fg : find_gateway view.gateways (parent_ns ns p) p.name ≡ some g)
    (ml : Memᴰ l g.listeners) where
  selected-IsAt :
      (str_eq l.protocol protocol && section_fits p.section_name l) ≡ true
      → IsAt view.gateways ns parents protocol g l
  selected-IsAt b =
      let (x, y) = &&-split (str_eq l.protocol protocol) (section_fits p.section_name l) b in
      record {
        parent = p;
        of_route = mp;
        is_gateway = fg;
        listed = ml;
        speaks = (str_eq_iff l.protocol protocol).0 x;
        section = y;
      }

  pub plain_route-Makes :
      is_some (listener_protocol_to_ir protocol) ≡ true
      → ((r : Ir.L4Route)
          → IsAt view.gateways ns parents protocol g l
          → r.listener_hostname ≡ Ir.HostnameMatch.any
          → r.match_ ≡ Ir.L4Match.any
          → r.action ≡ action
          → IsL4Route view r g l)
      → Makes (IsL4Route view) view.gateways g l (plain_route protocol action p g l)
  unfolding plain_route
  plain_route-Makes k f = record {
    of_view = ((find_sound _ view.gateways g fg).0, ml);
    known = λ rs e.
        is_protocol l.protocol protocol
          (&&-split (str_eq l.protocol protocol) (section_fits p.section_name l)
            (guarded _ _ rs e).0).0
          k;
    each = λ rs r e m.
        let (b, o) = guarded _ _ rs e in
        let s = single _ rs r o m in
        (
          f r (selected-IsAt b) (ap (λ (q : Ir.L4Route). q.listener_hostname) s)
              (ap (λ (q : Ir.L4Route). q.match_) s) (ap (λ (q : Ir.L4Route). q.action) s),
          ap (λ (q : Ir.L4Route). q.listener_id) s,
        );
  }

pub tls_route_for-Makes :
    (view : GatewayView) (t : TlsRouteState) (p : ParentRef) (g : GatewayState) (l : ListenerState)
    → Memᴰ t view.tls_routes
    → t.programmed ≡ true
    → Memᴰ p t.parent_refs
    → find_gateway view.gateways (parent_ns t.namespace p) p.name ≡ some g
    → Memᴰ l g.listeners
    → Makes (IsL4Route view) view.gateways g l (tls_route_for t p g l)
unfolding tls_route_for
tls_route_for-Makes view t p g l mt on mp fg ml = record {
  of_view = ((find_sound _ view.gateways g fg).0, ml);
  known = λ rs e.
      is_protocol l.protocol (codes "TLS")
        (&&-split (str_eq l.protocol (codes "TLS")) (section_fits p.section_name l)
          (guarded _ _ rs e).0).0
        (unfold listener_protocol_to_ir str_eq in refl);
  each = λ rs r e m.
      let (b, o) = guarded _ _ rs e in
      let same =
        some-same (map (tls_l4_route t g l) (tls_hostnames t.hostnames (tls_match l))) rs o in
      let (h, mh, s) =
        map_sound (tls_l4_route t g l) (tls_hostnames t.hostnames (tls_match l))
          (subst (λ x. Memᴰ r x) (sym same) m) in
      (
        IsL4Route.tls t mt on
            (selected-IsAt view (codes "TLS") (r.action) t.namespace t.parent_refs p g l mp fg ml b)
            (tls_match l)
            (subst (λ x. IsListenerName l (tls_match l) x)
              (sym (ap (λ (q : Ir.L4Route). q.listener_hostname) s)) (listener_name l))
            h (tls_hostnames-IsTlsName t.hostnames (tls_match l) h mh)
            (ap (λ (q : Ir.L4Route). q.match_) s)
            (subst (λ x. IsTlsAction l.tls_mode (map to_ir_weighted_backend t.backends) x)
              (sym (ap (λ (q : Ir.L4Route). q.action) s))
              (tls_action-IsTlsAction l.tls_mode (map to_ir_weighted_backend t.backends))),
        ap (λ (q : Ir.L4Route). q.listener_id) s,
      );
}

asked :
    (view : GatewayView) (id : Str)
    → any (λ i. str_eq i id) (https_listener_ids view) ≡ true
    → IsAsked view id
unfolding https_listener_ids
asked view id h =
    let (i, m, e) =
      any_sound (λ i. str_eq i id)
        (flat_map (http_ids view) view.http_routes ++ flat_map (grpc_ids view) view.grpc_routes)
        h in
    let same = (str_eq_iff i id).0 e in
    elim (Memᴰ-append (flat_map (http_ids view) view.http_routes) _ (
      subst
        (λ x.
          Memᴰ x (
            flat_map (http_ids view) view.http_routes ++ flat_map (grpc_ids view) view.grpc_routes))
        same m)) [
          | inl k ↦
              let (r, mr, n) = flat_map_sound (http_ids view) view.http_routes k in
              let (x, e, me, q) = asked_by r.parent_refs _ n in IsAsked.by_http r mr x e me q
          | inr k ↦
              let (r, mr, n) = flat_map_sound (grpc_ids view) view.grpc_routes k in
              let (x, e, me, q) = asked_by r.parent_refs _ n in IsAsked.by_grpc r mr x e me q
        ]

module _ (view : GatewayView) (g : GatewayState) (l : ListenerState) (mg : Memᴰ g view.gateways)
    (ml : Memᴰ l g.listeners) where
  pub https_route_for-Makes :
      Makes (IsL4Route view) view.gateways g l (https_route_for (https_listener_ids view) g l)
  unfolding https_route_for
  https_route_for-Makes = record {
    of_view = (mg, ml);
    known = λ rs e.
        is_protocol l.protocol (codes "HTTPS")
          (&&-split (str_eq l.protocol (codes "HTTPS")) _ (guarded _ _ rs e).0).0
          (unfold listener_protocol_to_ir str_eq in refl);
    each = λ rs r e m.
        let (b, o) = guarded _ _ rs e in
        let (x, y) =
          &&-split (str_eq l.protocol (codes "HTTPS"))
            (any (λ i. str_eq i (id_of g l)) (https_listener_ids view)) b in
        let s = single _ rs r o m in
        (
          IsL4Route.https mg ml ((str_eq_iff l.protocol (codes "HTTPS")).0 x)
              (asked view (id_of g l) y) (tls_match l)
              (subst (λ x. IsListenerName l (tls_match l) x)
                (sym (ap (λ (q : Ir.L4Route). q.listener_hostname) s)) (own_name l))
              (own_match l r (ap (λ (q : Ir.L4Route). q.listener_hostname) s)
                (ap (λ (q : Ir.L4Route). q.match_) s))
              (ap (λ (q : Ir.L4Route). q.action) s),
          ap (λ (q : Ir.L4Route). q.listener_id) s,
        );
  }

  pub http_route_for-Makes : Makes (IsL4Route view) view.gateways g l (http_route_for g l)
  unfolding http_route_for
  http_route_for-Makes = record {
    of_view = (mg, ml);
    known = λ rs e.
        is_protocol l.protocol (codes "HTTP") (guarded _ _ rs e).0
          (unfold listener_protocol_to_ir str_eq in refl);
    each = λ rs r e m.
        let (b, o) = guarded _ _ rs e in
        let s = single _ rs r o m in
        (
          IsL4Route.http mg ml ((str_eq_iff l.protocol (codes "HTTP")).0 b) (tls_match l)
              (subst (λ x. IsListenerName l (tls_match l) x)
                (sym (ap (λ (q : Ir.L4Route). q.listener_hostname) s)) (own_name l))
              (ap (λ (q : Ir.L4Route). q.match_) s) (ap (λ (q : Ir.L4Route). q.action) s),
          ap (λ (q : Ir.L4Route). q.listener_id) s,
        );
  }
