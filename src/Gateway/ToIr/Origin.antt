-- ===== src/Gateway/ToIr/Origin.antt =====
-- Where a host of the table and each of its rules come from.
use mathlib.Core.List.{Memᴰ}
use mathlib.Core.Path.{subst}
use proxy.Common.{
  map_sound, ◌≡◌, refl, sym, ap, inl, inr, none, some, List, [], ◌∷◌, ◌++◌, Memᴰ-append,
}
use proxy.Common.BTreeMap.{upsert, upsert-mem}
use proxy.Ir
use proxy.Gateway.Model.{GatewayView}
use proxy.Gateway.Effective.{EffectiveHostname}
use proxy.Gateway.ToIr.{
  GroupKey, group_cmp, Groups, key_of, new_host, extended, groups_of, translate_view_to_ir,
}
use proxy.Gateway.ToIr.Groups.{
  group_cmp-IsOrder, Entry, entries, add_entries, groups_of-add_entries,
}

-- Where an entry's host comes from, and where each rule does: from effective host names of its key.
pub record IsFrom (es : List Entry) (key : GroupKey) (h : Ir.HostRoute) : Type 0 where
  pub first : Entry
  pub known : Memᴰ first es
  pub at_key : key_of first.0 ≡ key
  pub host : h ≡ new_host first.0 h.rules
  pub rules :
      (r : Ir.Rule) → Memᴰ r h.rules → (e : Entry) × Memᴰ e es × (key_of e.0 ≡ key) × Memᴰ r e.1

extended-IsFrom :
    (es : List Entry) (eff : EffectiveHostname) (rules : List Ir.Rule) (key : GroupKey)
    (h : Ir.HostRoute)
    → Memᴰ (eff, rules) es
    → key_of eff ≡ key
    → IsFrom es key h
    → IsFrom es key (extended eff rules (some h))
unfolding extended new_host
extended-IsFrom es eff rules key h m k i = record {
  first = i.first;
  known = i.known;
  at_key = i.at_key;
  host = ap (λ (x : Ir.HostRoute). record x { rules = h.rules ++ rules }) i.host;
  rules = λ r mr. elim (Memᴰ-append h.rules rules mr) [
    | inl q ↦ i.rules r q
    | inr q ↦ ((eff, rules), m, k, q)
  ];
}

new_host-IsFrom :
    (es : List Entry) (eff : EffectiveHostname) (rules : List Ir.Rule)
    → Memᴰ (eff, rules) es
    → IsFrom es (key_of eff) (extended eff rules none)
unfolding extended new_host
new_host-IsFrom es eff rules m = record {
  first = (eff, rules);
  known = m;
  at_key = refl;
  host = refl;
  rules = λ r q. ((eff, rules), m, refl, q);
}

add_entries-IsFrom :
    (all es : List Entry) (g : Groups)
    → ((e : Entry) → Memᴰ e es → Memᴰ e all)
    → ((x : GroupKey × Ir.HostRoute) → Memᴰ x g → IsFrom all x.0 x.1)
    → (x : GroupKey × Ir.HostRoute) → Memᴰ x (add_entries es g)
    → IsFrom all x.0 x.1
unfolding add_entries
add_entries-IsFrom all [] g sub old x m = old x m
add_entries-IsFrom all ((eff, rules) ∷ es) g sub old x m =
    let here = sub (eff, rules) (Memᴰ.head refl) in
    add_entries-IsFrom all es (upsert group_cmp (key_of eff) (extended eff rules) g)
      (λ e q. sub e (Memᴰ.tail q))
      (λ y my. elim (upsert-mem group_cmp (key_of eff) (extended eff rules) g my) [
        | inl q ↦ old y q
        | inr (inl q) ↦
            subst (λ (z : GroupKey × Ir.HostRoute). IsFrom all z.0 z.1) (sym q)
              (new_host-IsFrom all eff rules here)
        | inr (inr (j, v, c, q, r)) ↦
            subst (λ (z : GroupKey × Ir.HostRoute). IsFrom all z.0 z.1) (sym r)
              (extended-IsFrom all eff rules j v here (group_cmp-IsOrder.same (key_of eff) j c)
                (old (j, v) q))
      ])
      x m

-- Every group.
pub groups_of-IsFrom :
    (view : GatewayView) (x : GroupKey × Ir.HostRoute)
    → Memᴰ x (groups_of view)
    → IsFrom (entries view) x.0 x.1
groups_of-IsFrom view x m =
    add_entries-IsFrom (entries view) (entries view) [] (λ e q. q) (λ x q. elim q [ ]) x
      (subst (λ g. Memᴰ x g) (groups_of-add_entries view) m)

-- Every host of the table.
pub hosts-IsFrom :
    (view : GatewayView) (h : Ir.HostRoute)
    → Memᴰ h (translate_view_to_ir view).hosts
    → (key : GroupKey) × IsFrom (entries view) key h
unfolding translate_view_to_ir
hosts-IsFrom view h m =
    let (x, mx, e) = map_sound (λ (e : GroupKey × Ir.HostRoute). e.1) (groups_of view) m in
    (x.0, subst (λ y. IsFrom (entries view) x.0 y) (sym e) (groups_of-IsFrom view x mx))
