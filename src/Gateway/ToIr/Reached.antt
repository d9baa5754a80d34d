-- ===== src/Gateway/ToIr/Reached.antt =====
-- Every effective host name of the view is reached: its requests find a host node.
use mathlib.Core.List.{Memᴰ}
use mathlib.Core.Path.{subst}
use proxy.Common.{
  [], flat_map_complete, All-of, if-Memᴰ, map_complete, ℕ, ◌≡◌, ◌≢◌, refl, sym, ap, ◌∙◌, inl, inr,
  ◌⊎◌, true, none, some, List, arith, if◌then◌else◌, any_complete, Option-cases, All, All-Memᴰ, ◌<◌,
  ◌≤◌,
}
use proxy.Common.Text.{Str}
use proxy.Common.BTreeMap.{get, get-mem, is_eq}
use proxy.Ir
use proxy.Compile.Types.{CompiledRouteTable, HostNode, ok}
use proxy.Compile.Request.{ir_hostname_matches}
use proxy.Compile.Table.{
  compile_table, find_host_node, listener_hostname_matches, listener_port_matches, listener_score,
  route_score,
}
use proxy.Compile.Table.Routing.{listener_score_of, route_score_of, find_host_node_best}
use proxy.Gateway.Hostnames.{HostnameMatch, to_ir_hostname}
use proxy.Gateway.Hostnames.Overlap.{hits}
use proxy.Gateway.Model.{GatewayView}
use proxy.Gateway.ToIr.{
  GroupKey, group_cmp, key_of, new_host, listener_hostname_of, groups_of, translate_view_to_ir,
}
use proxy.Gateway.ToIr.Groups.{
  group_cmp-IsOrder, is_eq_sound, Entry, entries, has_key, rules_at, stored, groups_of-rules,
}
use proxy.Gateway.ToIr.Origin.{groups_of-IsFrom}
use proxy.Gateway.ToIr.Lookup.{is_plain, HasPlainNames, hostname_to_prefix-injective}

-- The listener host names of the view's routes do not start with an asterisk, if exact.
abbrev pub HasPlainListeners : GatewayView → Type 0
HasPlainListeners view = All (λ e. is_plain e.0.listener_hostname ≡ true) (entries view)

-- The host of an entry.
pub record HostOf (view : GatewayView) (e : Entry) : Type 0 where
  pub host : Ir.HostRoute
  pub known : Memᴰ host (translate_view_to_ir view).hosts
  pub hostname : host.hostname ≡ to_ir_hostname e.0.route_hostname
  pub listener_hostname : host.listener_hostname ≡ listener_hostname_of e.0.listener_hostname
  pub listener_port : host.listener_port ≡ e.0.listener_port
  pub rules : All (λ rule. Memᴰ rule host.rules) e.1

-- Every entry has a group.
group_of :
    (view : GatewayView) (e : Entry)
    → Memᴰ e (entries view)
    → (h : Ir.HostRoute) × (get group_cmp (key_of e.0) (groups_of view) ≡ some h)
      × (h.rules ≡ rules_at (key_of e.0) (entries view))
group_of view e m =
    let key = key_of e.0 in
    let here : has_key key e ≡ true = ap is_eq (group_cmp-IsOrder.self key) in
    let there = any_complete (has_key key) (entries view) e m here in
    let (_, st) = groups_of-rules view key in
    let st' : stored key (groups_of view) ≡ some (rules_at key (entries view)) =
      st ∙ ap (λ b. if b then some (rules_at key (entries view)) else none) there in
    elim (Option-cases (get group_cmp key (groups_of view))) [
      | inl k ↦ absurd (ground (arith, st', k))
      | inr (h, k) ↦ (h, k, ground (arith, st', k))
    ]

pub entry-HostOf :
    (view : GatewayView) (e : Entry)
    → HasPlainNames view
    → HasPlainListeners view
    → Memᴰ e (entries view)
    → HostOf view e
unfolding translate_view_to_ir new_host
entry-HostOf view e pn pl m =
    let (h, found, held) = group_of view e m in
    let (j, eq, mg) = get-mem group_cmp (key_of e.0) (groups_of view) found in
    let i = groups_of-IsFrom view (j, h) mg in
    let keys : key_of i.first.0 ≡ key_of e.0 =
      i.at_key ∙ sym (group_cmp-IsOrder.same (key_of e.0) j (is_eq_sound _ eq)) in
    let names : i.first.0.route_hostname ≡ e.0.route_hostname =
      hostname_to_prefix-injective i.first.0.route_hostname e.0.route_hostname
        (All-Memᴰ (λ (y : Entry). is_plain y.0.route_hostname ≡ true) (entries view) pn i.known)
        (All-Memᴰ (λ (y : Entry). is_plain y.0.route_hostname ≡ true) (entries view) pn m)
        (ap (λ (k : GroupKey). k.1) keys) in
    let listeners : i.first.0.listener_hostname ≡ e.0.listener_hostname =
      hostname_to_prefix-injective i.first.0.listener_hostname e.0.listener_hostname
        (All-Memᴰ (λ (y : Entry). is_plain y.0.listener_hostname ≡ true) (entries view) pl i.known)
        (All-Memᴰ (λ (y : Entry). is_plain y.0.listener_hostname ≡ true) (entries view) pl m)
        (ap (λ (k : GroupKey). k.0) keys) in
    record {
      host = h;
      known = map_complete (λ (x : GroupKey × Ir.HostRoute). x.1) (groups_of view) mg;
      hostname = ap (λ (x : Ir.HostRoute). x.hostname) i.host ∙ ap to_ir_hostname names;
      listener_hostname =
          ap (λ (x : Ir.HostRoute). x.listener_hostname) i.host ∙ ap listener_hostname_of listeners;
      listener_port =
          ap (λ (x : Ir.HostRoute). x.listener_port) i.host ∙ ap (λ (k : GroupKey). k.2) keys;
      rules =
          All-of (λ rule. Memᴰ rule h.rules) e.1
            (λ rule k.
              subst (λ rs. Memᴰ rule rs) (sym held)
                (flat_map_complete (λ (x : Entry). if has_key (key_of e.0) x then x.1 else [])
                  (entries view) m
                  (if-Memᴰ (has_key (key_of e.0) e) _ _
                    (ap is_eq (group_cmp-IsOrder.self (key_of e.0))) k)));
    }

to_ir_hostname-any :
    (p : HostnameMatch) → to_ir_hostname p ≡ Ir.HostnameMatch.any → p ≡ HostnameMatch.any
unfolding to_ir_hostname
to_ir_hostname-any (HostnameMatch.exact s) e = ground (arith, e)
to_ir_hostname-any (HostnameMatch.wildcard s) e = ground (arith, e)
to_ir_hostname-any HostnameMatch.any e = refl

-- A request whose host name and port an effective host name of the view and its listener's host name
-- accept finds a host node in the table compiled from the view. The route table has a host with those
-- names and that port, and the node's listener, or with equally specific listeners the node's host
-- name, is at least as specific as the host's. The effective host name is not the catch-all, and the
-- view's host names, if exact, do not start with an asterisk.
pub gateway_host_found :
    (iter : List (Str × ℕ) → List (Str × ℕ)) (view : GatewayView) (table : CompiledRouteTable)
    (host : Str) (port : ℕ) (e : Entry)
    → HasPlainNames view
    → HasPlainListeners view
    → compile_table iter (translate_view_to_ir view) ≡ ok table
    → Memᴰ e (entries view)
    → e.0.route_hostname ≢ HostnameMatch.any
    → hits host e.0.route_hostname ≡ true
    → listener_hostname_matches host (listener_hostname_of e.0.listener_hostname) ≡ true
    → listener_port_matches port e.0.listener_port ≡ true
    → (h : HostOf view e) × (n : HostNode) × (find_host_node table host port ≡ some n)
      × ((listener_score_of h.host < listener_score n)
          ⊎ ((listener_score_of h.host ≡ listener_score n)
              × (route_score_of h.host ≤ route_score n)))
gateway_host_found iter view table host port e pn pl c m ne hit lm pm =
    let h = entry-HostOf view e pn pl m in
    let (n, found, best) =
      find_host_node_best iter (translate_view_to_ir view) table host port h.host c h.known
        (λ k. ne (to_ir_hostname-any e.0.route_hostname (sym h.hostname ∙ k)))
        (ap (λ x. ir_hostname_matches host x) h.hostname ∙ hit)
        (rw (h.listener_hostname, h.listener_port, lm, pm) refl) in
    (h, n, found, best)
