-- ===== src/Gateway/ToIr/Groups.antt =====
-- The groups of the table: which route's rules stand under which listener, host name and port.

use mathlib.Core.Option
use mathlib.Core.Path.{subst}
use Prim.Native.Nat.{Ordering}
use proxy.Common.{
  ◌≡◌, refl, sym, ap, ◌∙◌, inl, inr, Bool, true, false, Option, none, some, List, [], ◌∷◌, ◌++◌,
  map, arith, any, flat_map, if◌then◌else◌, Bool-cases, append_assoc, append-nil,
}
use proxy.Common.Text.{codes, is_empty}
use proxy.Common.Order.{
  IsOrder, str_cmp, port_cmp, triple_cmp-IsOrder, str_cmp-IsOrder, port_cmp-IsOrder,
}
use proxy.Common.BTreeMap.{
  get, upsert, is_eq, IsOrdered, upsert-IsOrdered, get-upsert_self, get-upsert_other,
}
use proxy.Ir
use proxy.Gateway.Model.{GatewayView}
use proxy.Gateway.Model.Routing.{HttpRouteState, GrpcRouteState}
use proxy.Gateway.Effective.{EffectiveHostname, compute_effective_hostnames}
use proxy.Gateway.ToIr.{
  GroupKey, group_cmp, Groups, rules_of_http, rules_of_grpc, key_of, new_host, extended, add_group,
  http_hostnames, grpc_hostnames, add_http_routes, add_grpc_routes, groups_of,
}

pub group_cmp-IsOrder : IsOrder group_cmp
unfolding group_cmp
group_cmp-IsOrder =
    triple_cmp-IsOrder str_cmp str_cmp port_cmp str_cmp-IsOrder str_cmp-IsOrder port_cmp-IsOrder

-- An effective host name of a route, and the rules that the route has on it.
abbrev pub Entry : Type 0
Entry = EffectiveHostname × List Ir.Rule

abbrev pub with_rules : (EffectiveHostname → List Ir.Rule) → EffectiveHostname → Entry
with_rules rules_of eff = (eff, rules_of eff)

abbrev pub http_entries : GatewayView → HttpRouteState → List Entry
http_entries view r =
    if is_empty r.parent_refs
    then []
    else map (with_rules (rules_of_http r))
        (compute_effective_hostnames view (http_hostnames r) (codes "HTTPRoute"))

abbrev pub grpc_entries : GatewayView → GrpcRouteState → List Entry
grpc_entries view r =
    if is_empty r.parent_refs
    then []
    else map (with_rules (rules_of_grpc r))
        (compute_effective_hostnames view (grpc_hostnames r) (codes "GRPCRoute"))

-- All that is put in the groups, in its order.
abbrev pub entries : GatewayView → List Entry
entries view =
    flat_map (http_entries view) view.http_routes ++ flat_map (grpc_entries view) view.grpc_routes

unfoldable pub add_entries : List Entry → Groups → Groups
add_entries [] g = g
add_entries ((eff, rules) ∷ es) g =
    add_entries es (upsert group_cmp (key_of eff) (extended eff rules) g)

add_entries-append :
    (es fs : List Entry) (g : Groups) → add_entries (es ++ fs) g ≡ add_entries fs (add_entries es g)
unfolding add_entries
add_entries-append [] fs g = refl
add_entries-append ((eff, rules) ∷ es) fs g = add_entries-append es fs _

add_group-add_entries :
    (f : EffectiveHostname → List Ir.Rule) (effs : List EffectiveHostname) (g : Groups)
    → add_group f effs g ≡ add_entries (map (with_rules f) effs) g
unfolding add_group add_entries
add_group-add_entries f [] g = refl
add_group-add_entries f (eff ∷ effs) g = add_group-add_entries f effs _

if-add_entries :
    (b : Bool) (es : List Entry) (g : Groups)
    → (if b then g else add_entries es g) ≡ add_entries (if b then [] else es) g
unfolding add_entries
if-add_entries true es g = refl
if-add_entries false es g = refl

add_http_routes-add_entries :
    (view : GatewayView) (rs : List HttpRouteState) (g : Groups)
    → add_http_routes view rs g ≡ add_entries (flat_map (http_entries view) rs) g
unfolding add_http_routes
add_http_routes-add_entries view [] g = unfold add_entries in refl
add_http_routes-add_entries view (r ∷ rs) g =
    let effs = compute_effective_hostnames view (http_hostnames r) (codes "HTTPRoute") in
    let here =
      ap (λ x. if is_empty r.parent_refs then g else x)
        (add_group-add_entries (rules_of_http r) effs g)
      ∙ if-add_entries (is_empty r.parent_refs) (map (with_rules (rules_of_http r)) effs) g in
    ap (add_http_routes view rs) here
    ∙ add_http_routes-add_entries view rs _
    ∙ sym (add_entries-append (http_entries view r) (flat_map (http_entries view) rs) g)

add_grpc_routes-add_entries :
    (view : GatewayView) (rs : List GrpcRouteState) (g : Groups)
    → add_grpc_routes view rs g ≡ add_entries (flat_map (grpc_entries view) rs) g
unfolding add_grpc_routes
add_grpc_routes-add_entries view [] g = unfold add_entries in refl
add_grpc_routes-add_entries view (r ∷ rs) g =
    let effs = compute_effective_hostnames view (grpc_hostnames r) (codes "GRPCRoute") in
    let here =
      ap (λ x. if is_empty r.parent_refs then g else x)
        (add_group-add_entries (rules_of_grpc r) effs g)
      ∙ if-add_entries (is_empty r.parent_refs) (map (with_rules (rules_of_grpc r)) effs) g in
    ap (add_grpc_routes view rs) here
    ∙ add_grpc_routes-add_entries view rs _
    ∙ sym (add_entries-append (grpc_entries view r) (flat_map (grpc_entries view) rs) g)

pub groups_of-add_entries : (view : GatewayView) → groups_of view ≡ add_entries (entries view) []
unfolding groups_of
groups_of-add_entries view =
    ap (add_grpc_routes view view.grpc_routes)
      (add_http_routes-add_entries view view.http_routes [])
    ∙ add_grpc_routes-add_entries view view.grpc_routes _
    ∙ sym (add_entries-append (flat_map (http_entries view) view.http_routes) _ [])

add_entries-IsOrdered :
    (es : List Entry) (g : Groups) → IsOrdered group_cmp g → IsOrdered group_cmp (add_entries es g)
unfolding add_entries
add_entries-IsOrdered [] g s = s
add_entries-IsOrdered ((eff, rules) ∷ es) g s =
    add_entries-IsOrdered es _
      (upsert-IsOrdered group_cmp group_cmp-IsOrder (key_of eff) (extended eff rules) g s)

-- The entries of a key.
abbrev pub has_key : GroupKey → Entry → Bool
has_key key e = is_eq (group_cmp key (key_of e.0))

abbrev pub rules_at : GroupKey → List Entry → List Ir.Rule
rules_at key es = flat_map (λ e. if has_key key e then e.1 else []) es

-- What more entries make of the rules at a key.
abbrev pub grown : GroupKey → List Entry → Option (List Ir.Rule) → Option (List Ir.Rule)
grown key es (some rules) = some (rules ++ rules_at key es)
grown key es none = if any (has_key key) es then some (rules_at key es) else none

abbrev pub stored : GroupKey → Groups → Option (List Ir.Rule)
stored key g = Option.map (λ (h : Ir.HostRoute). h.rules) (get group_cmp key g)

pub is_eq_sound : (o : Ordering) → is_eq o ≡ true → o ≡ Ordering.eq
is_eq_sound Ordering.eq h = refl
is_eq_sound Ordering.lt h = ground arith
is_eq_sound Ordering.gt h = ground arith

has_key_sound : (key : GroupKey) (e : Entry) → has_key key e ≡ true → key ≡ key_of e.0
has_key_sound key e h = group_cmp-IsOrder.same key (key_of e.0) (is_eq_sound _ h)

-- One more entry at the key, and one elsewhere.
stored-same :
    (key : GroupKey) (eff : EffectiveHostname) (rules : List Ir.Rule) (g : Groups)
    → IsOrdered group_cmp g
    → has_key key (eff, rules) ≡ true
    → stored key (upsert group_cmp (key_of eff) (extended eff rules) g)
      ≡ some (elim (stored key g) [ none ↦ rules | some old ↦ old ++ rules ])
unfolding extended new_host
stored-same key eff rules g s h =
    let k = has_key_sound key (eff, rules) h in
    let got = get-upsert_self group_cmp group_cmp-IsOrder (key_of eff) (extended eff rules) g s in
    let e : get group_cmp key (upsert group_cmp (key_of eff) (extended eff rules) g)
        ≡ some (extended eff rules (get group_cmp key g)) =
      subst
        (λ q.
          get group_cmp q (upsert group_cmp (key_of eff) (extended eff rules) g)
          ≡ some (extended eff rules (get group_cmp q g)))
        (sym k) got in
    ap (λ o. Option.map (λ (x : Ir.HostRoute). x.rules) o) e ∙ rules_of (get group_cmp key g)
  where
    rules_of :
        (o : Option Ir.HostRoute)
        → some (extended eff rules o).rules
          ≡ some (elim (Option.map (λ (x : Ir.HostRoute). x.rules) o) [
            | none ↦ rules
            | some old ↦ old ++ rules
          ])
    rules_of none = refl
    rules_of (some x) = refl

stored-add_entries :
    (key : GroupKey) (es : List Entry) (g : Groups)
    → IsOrdered group_cmp g
    → stored key (add_entries es g) ≡ grown key es (stored key g)
unfolding add_entries
stored-add_entries key [] g s = ends (stored key g)
  where
    ends : (o : Option (List Ir.Rule)) → o ≡ grown key [] o
    ends none = refl
    ends (some rules) = ap (λ x. some x) (sym (append-nil rules))
stored-add_entries key ((eff, rules) ∷ es) g s =
    let g' = upsert group_cmp (key_of eff) (extended eff rules) g in
    let s' = upsert-IsOrdered group_cmp group_cmp-IsOrder (key_of eff) (extended eff rules) g s in
    stored-add_entries key es g' s' ∙ elim (Bool-cases (has_key key (eff, rules))) [
      | inl h ↦ ap (grown key es) (stored-same key eff rules g s h) ∙ more (stored key g) h
      | inr h ↦
          ap (λ o. grown key es (Option.map (λ (x : Ir.HostRoute). x.rules) o))
            (get-upsert_other group_cmp group_cmp-IsOrder key (key_of eff) (extended eff rules) g h)
          ∙ same (stored key g) h
    ]
  where
    more :
        (o : Option (List Ir.Rule))
        → has_key key (eff, rules) ≡ true
        → grown key es (some (elim o [ none ↦ rules | some old ↦ old ++ rules ]))
          ≡ grown key ((eff, rules) ∷ es) o
    more none h = rw h refl
    more (some old) h = rw h (ap (λ x. some x) (append_assoc old rules (rules_at key es)))

    same :
        (o : Option (List Ir.Rule))
        → has_key key (eff, rules) ≡ false
        → grown key es o ≡ grown key ((eff, rules) ∷ es) o
    same none h = rw h refl
    same (some old) h = rw h refl

-- The groups are in the order of their keys, each key once. The rules of a group are those of the
-- effective host names with its listener's prefix, its own prefix and its port, of all HTTPRoutes and
-- then of all GRPCRoutes with parents, in the order of the view; there is a group for a key exactly
-- when some effective host name has it.
pub groups_of-rules :
    (view : GatewayView) (key : GroupKey)
    → IsOrdered group_cmp (groups_of view)
      × (stored key (groups_of view)
          ≡ (if any (has_key key) (entries view) then some (rules_at key (entries view)) else none))
groups_of-rules view key = rw (groups_of-add_entries view) (
  add_entries-IsOrdered (entries view) [] tt,
  unfold get in stored-add_entries key (entries view) [] tt,
)
