-- ===== src/Compile/Table/Routing.antt =====
-- `find_host_node` and `CompiledRouteTable::lookup` on a compiled table, against the route table.
use mathlib.Core.List.{Memᴰ}
use mathlib.Core.Path.{subst}
use proxy.Common.{
  ℕ, ◌≤◌, ◌<◌, ◌≡◌, ◌≢◌, refl, sym, ap, ◌⊎◌, inl, inr, Bool, true, ◌&&◌, Option, none, some, List,
  arith, Option-cases, filter, filter_sound, filter_complete, any_sound, &&-split,
}
use proxy.Common.Text.{Str}
use proxy.Ir.{HostnameMatch, RequestMatch, Rule, HostRoute, RouteTable}
use proxy.Compile.Types.{ArcPlan, HostNode, CompiledRouteTable, ok}
use proxy.Compile.Request.{Regex, Headers, ir_hostname_matches, request_matches, specificity_score}
use proxy.Compile.Host.{compile_host, assemble, lookup}
use proxy.Compile.Host.Plans.{IsPlanOf}
use proxy.Compile.Host.Candidates.{PathFits}
use proxy.Compile.Host.Choice.{compile_host_plans, lookup_sound}
use proxy.Compile.Table.{
  Hosts, no_hosts, add_hosts, sorted_table, compile_table, host_candidates, listener_accepts,
  listener_hostname_matches, listener_port_matches, listener_specificity_score, listener_score,
  route_score, find_host_node, table_lookup, has_gateway_api_listener,
}
use proxy.Compile.Table.Stored.{Stored-complete, add_hosts_total}
use proxy.Compile.Table.HostNodes.{
  candidate_sound, stored_candidate, most_specific_mem, most_specific_sound, most_specific_complete,
}

-- The fields of a host that its node keeps.
record KeepsHost (h : HostRoute) (n : HostNode) : Type 0 where
  hostname_eq : n.hostname ≡ h.hostname
  listener_hostname_eq : n.listener_hostname ≡ h.listener_hostname
  listener_port_eq : n.listener_port ≡ h.listener_port
  gateway_api_eq : n.gateway_api ≡ h.gateway_api

-- A listener of a host accepts the request's host name and port.
abbrev pub host_listens : Str → ℕ → HostRoute → Bool
host_listens host port h =
    listener_hostname_matches host h.listener_hostname && listener_port_matches port h.listener_port

-- The scores of a host, by which its node is chosen.
abbrev pub listener_score_of : HostRoute → ℕ
listener_score_of h = listener_specificity_score h.listener_hostname

abbrev pub route_score_of : HostRoute → ℕ
route_score_of h = specificity_score h.hostname

-- Where some Gateway API host listens for the request's host name and port, a host node is found.
pub has_gateway_api_listener-find_host_node :
    (table : CompiledRouteTable) (host : Str) (port : ℕ)
    → has_gateway_api_listener table host port ≡ true
    → (n : HostNode) × (find_host_node table host port ≡ some n)
unfolding has_gateway_api_listener find_host_node
has_gateway_api_listener-find_host_node table host port h =
    let (q, m, t) =
      any_sound (λ (n : HostNode). n.gateway_api && listener_accepts host port n)
        (host_candidates table host) h in
    let (_, acc) = &&-split q.gateway_api (listener_accepts host port q) t in
    most_specific_complete _ q
      (filter_complete (λ x. listener_accepts host port x) (host_candidates table host) m acc)

module _ (iter : List (Str × ℕ) → List (Str × ℕ)) where
  compile_host-KeepsHost :
      (h : HostRoute) (n : HostNode) → compile_host iter h ≡ ok n → KeepsHost h n
  unfolding assemble
  compile_host-KeepsHost h n e =
      let (plans, _, built) = compile_host_plans iter h n e in
      subst (λ k. KeepsHost h k) built
        (record {
          hostname_eq = refl;
          listener_hostname_eq = refl;
          listener_port_eq = refl;
          gateway_api_eq = refl;
        })

  table_hosts :
      (ir : RouteTable) (table : CompiledRouteTable)
      → compile_table iter ir ≡ ok table
      → (st : Hosts) × (add_hosts iter ir.hosts no_hosts ≡ ok st) × (sorted_table ir st ≡ table)
  unfolding compile_table
  table_hosts ir table h =
      let (st, e) = add_hosts_total iter ir.hosts no_hosts in
      let built : ok (sorted_table ir st) ≡ ok table = rw e at h in (st, e, cc)

  module _ (ir : RouteTable) (table : CompiledRouteTable) (host : Str) (port : ℕ) where
    -- In a compiled table the node found is the compiled node of a host whose name accepts the request's, and whose
    -- listener accepts the request's host name and port.
    pub find_host_node_sound :
        (n : HostNode)
        → compile_table iter ir ≡ ok table
        → find_host_node table host port ≡ some n
        → (h : HostRoute) × Memᴰ h ir.hosts
          × (compile_host iter h ≡ ok n)
          × (ir_hostname_matches host h.hostname ≡ true)
          × (host_listens host port h ≡ true)
    unfolding find_host_node
    find_host_node_sound n c f =
        let (st, e, built) = table_hosts ir table c in
        let cs = host_candidates table host in
        let m = most_specific_mem (filter (λ k. listener_accepts host port k) cs) n f in
        let (mc, acc) = filter_sound (λ k. listener_accepts host port k) cs m in
        let mc' : Memᴰ n (host_candidates (sorted_table ir st) host) =
          subst (λ t. Memᴰ n (host_candidates t host)) (sym built) mc in
        let (h, mh, fits, ch) = candidate_sound iter ir host st n e mc' in
        let k = compile_host-KeepsHost h n ch in
        (h, mh, ch, fits, rw (sym k.listener_hostname_eq, sym k.listener_port_eq) acc)

    -- When a host of the table that is not the catch-all, and its listener, accept the request's host
    -- name and port, then a node is found in the compiled table, and that host is no more specific
    -- than the node: by the listener's score, then by the route's.
    pub find_host_node_best :
        (h : HostRoute)
        → compile_table iter ir ≡ ok table
        → Memᴰ h ir.hosts
        → h.hostname ≢ HostnameMatch.any
        → ir_hostname_matches host h.hostname ≡ true
        → host_listens host port h ≡ true
        → (n : HostNode) × (find_host_node table host port ≡ some n)
          × ((listener_score_of h < listener_score n)
              ⊎ ((listener_score_of h ≡ listener_score n) × (route_score_of h ≤ route_score n)))
    unfolding find_host_node
    find_host_node_best h c mh ne fits acc =
        let (st, e, built) = table_hosts ir table c in
        let (q, cq, stored) = Stored-complete iter ir.hosts no_hosts st h e mh ne in
        let k = compile_host-KeepsHost h q cq in
        let mq : Memᴰ q (host_candidates table host) =
          subst (λ t. Memᴰ q (host_candidates t host)) built
            (stored_candidate iter ir host st h.hostname q fits stored) in
        let aq : listener_accepts host port q ≡ true =
          rw (k.listener_hostname_eq, k.listener_port_eq) acc in
        let mf =
          filter_complete (λ x. listener_accepts host port x) (host_candidates table host) mq aq in
        let (n, found) = most_specific_complete _ q mf in
        let (_, best) = most_specific_sound _ n q found mf in
        let el : listener_score q ≡ listener_score_of h =
          ap (λ l. listener_specificity_score l) k.listener_hostname_eq in
        let er : route_score q ≡ route_score_of h = ap (λ l. specificity_score l) k.hostname_eq in
        (n, found, ground (arith, best, el, er))

    -- End to end: a plan found for a request in a compiled table is the plan of a match of a rule of a host of the route
    -- table, where the host's name and its listener accept the request's host name and port, and the
    -- match accepts its path, method, headers and query.
    pub table_lookup_sound :
        (re : Regex) (path method : Str) (headers : Headers) (query : Option Str) (p : ArcPlan)
        → compile_table iter ir ≡ ok table
        → table_lookup re table host port path method headers query ≡ some p
        → (h : HostRoute) × Memᴰ h ir.hosts
          × (ir_hostname_matches host h.hostname ≡ true)
          × (host_listens host port h ≡ true)
          × (rule : Rule) × Memᴰ rule h.rules
          × (m : RequestMatch) × Memᴰ m rule.matches
          × IsPlanOf h rule m p.plan
          × PathFits re m.path path
          × (request_matches re method headers query m ≡ true)
    unfolding table_lookup
    table_lookup_sound re path method headers query p c f =
        elim (Option-cases (find_host_node table host port)) [
          | inl none_found ↦
              let g : none ≡ some p = rw (none_found, table_lookup) at f in
              absurd (ground (arith, g))
          | inr (n, found) ↦
              let g : lookup re method headers query n path ≡ some p =
                rw (found, table_lookup) at f in
              let (h, mh, ch, fits, acc) = find_host_node_sound n c found in
              let (rule, mr, m, mm, is, pf, rf) =
                lookup_sound iter h re method headers query path n p ch g in
              (h, mh, fits, acc, rule, mr, m, mm, is, pf, rf)
        ]
