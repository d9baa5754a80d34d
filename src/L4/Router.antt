-- ===== src/L4/Router.antt =====
-- src/l4/router.rs: the choice of a route and of a backend. The ClientHello that `handle_tcp` peeks
-- is the parameter `peeked`; `WeightedIndex::new(weights).ok()` with a sample drawn from it is the
-- parameter `sample`.
pub mod TlsRoute
pub mod Backend
use proxy.Common.{
  ℕ, ◌+◌, Bool, true, false, ◌&&◌, ◌||◌, Option, none, some, List, [], ◌∷◌, map, length, find,
  filter, filter_map, max_of, is_some_and, or_else, if◌then◌else◌, ◌==◌, get_elem?, ◌>>=◌,
}
use proxy.Common.Text.{Str, str_eq, is_empty}
use proxy.Ir.{Protocol, HostnameMatch, L4Match, L4Action, WeightedBackend}
use proxy.Compile.Types.{CompiledL4Route, CompiledL4Config}
use proxy.Compile.Request.{ir_hostname_matches, ir_listener_specificity_score}

-- `L4Context`, but for the addresses.
pub record L4Context : Type 0 where
  pub listener_id : Str
  pub protocol : Protocol
  pub sni : Option Str

unfoldable pub routes_for_protocol : CompiledL4Config → Protocol → List CompiledL4Route
routes_for_protocol config Protocol.tcp = config.tcp_routes
routes_for_protocol config Protocol.udp = config.udp_routes
routes_for_protocol config Protocol.tls = config.tls_routes
routes_for_protocol config Protocol.https = config.https_routes
routes_for_protocol config Protocol.http = config.http_routes

unfoldable pub match_route : L4Match → Option Str → Bool
match_route L4Match.any sni = true
match_route (L4Match.sni hostname) sni = is_some_and (λ h. ir_hostname_matches h hostname) sni

abbrev pub on_listener : L4Context → CompiledL4Route → Bool
on_listener ctx r = str_eq r.listener_id ctx.listener_id

unfoldable pub find_route : List CompiledL4Route → L4Context → Option Str → Option CompiledL4Route
unfolding match_route
find_route routes ctx sni = find (λ r. on_listener ctx r && match_route r.match_ sni) routes

abbrev pub route_score : CompiledL4Route → ℕ
route_score r = ir_listener_specificity_score r.listener_hostname

abbrev pub accepts_sni : Str → CompiledL4Route → Bool
accepts_sni sni r = ir_hostname_matches sni r.listener_hostname

-- `find_tls_route` once there is an SNI: the routes of the listener that accept it.
abbrev pub tls_candidates : List CompiledL4Route → L4Context → Str → List CompiledL4Route
tls_candidates routes ctx sni =
    filter (λ r. accepts_sni sni r) (filter (λ r. on_listener ctx r) routes)

-- `find_tls_route` from the candidates on; each is paired with its score.
unfoldable pub best_tls_route : List CompiledL4Route → Str → Option CompiledL4Route
unfolding match_route
best_tls_route cs sni =
    let best = filter (λ r. route_score r == max_of route_score cs) cs in
    if is_empty cs then none else find (λ r. match_route r.match_ (some sni)) best

unfoldable pub find_tls_route :
    List CompiledL4Route → L4Context → Option Str → Option CompiledL4Route
unfolding best_tls_route
find_tls_route routes ctx none = none
find_tls_route routes ctx (some sni) = best_tls_route (tls_candidates routes ctx sni) sni

abbrev pub is_tls : Protocol → Bool
is_tls Protocol.tls = true
is_tls Protocol.https = true
is_tls _ = false

-- The SNI that `handle_tcp` routes by.
unfoldable pub routing_sni : L4Context → Option Str → Option Str
routing_sni ctx peeked = or_else ctx.sni (if is_tls ctx.protocol then peeked else none)

-- The route that `handle_tcp` finds.
unfoldable pub tcp_route : CompiledL4Config → L4Context → Option Str → Option CompiledL4Route
unfolding find_tls_route find_route routing_sni routes_for_protocol
tcp_route config ctx peeked =
    let routes = routes_for_protocol config ctx.protocol in
    let sni = routing_sni ctx peeked in
    if is_tls ctx.protocol then find_tls_route routes ctx sni else find_route routes ctx sni

abbrev pub sum_weights : List WeightedBackend → ℕ
sum_weights [] = 0
sum_weights (b ∷ bs) = b.weight + sum_weights bs

abbrev pub first : List WeightedBackend → Option WeightedBackend
first [] = none
first (b ∷ bs) = some b

-- The backends that `handle_udp` relays a packet to, if its route is for UDP.
unfoldable pub udp_backends : CompiledL4Config → L4Context → Option (List WeightedBackend)
unfolding find_route routes_for_protocol
udp_backends config ctx = do
  route ← find_route (routes_for_protocol config ctx.protocol) ctx none
  elim route.action [ L4Action.udp_relay backends ↦ some backends | _ ↦ none ]

module _ (sample : List ℕ → Option ℕ) where
  unfoldable pub pick_backend : List WeightedBackend → Option WeightedBackend
  pick_backend backends =
      if is_empty backends
      then none
      else (if length backends == 1
          then first backends
          else (if sum_weights backends == 0
              then first backends
              else (sample (map (λ (b : WeightedBackend). b.weight) backends) >>= λ i.
                  get_elem? backends i)))
