-- ===== src/L4/Examples.antt =====
-- Two TLS routes of one listener, and a choice between two backends.
use mathlib.Core.List.{Memᴰ}
use proxy.Common.{
  All, ◌≢◌, inr, false, ℕ, zero, suc, ◌≤◌, ◌<◌, ◌≡◌, refl, ap, ◌∙◌, ◌⊎◌, true, Option, none, some,
  List, [], ◌∷◌, arith, length, get_elem?, ◌+◌,
}
use proxy.Common.Text.{codes, str_eq}
use proxy.Ir.{Protocol, HostnameMatch, L4Match, L4Action, WeightedBackend, BackendProtocol}
use proxy.Compile.Types.{CompiledL4Route, CompiledL4Config}
use proxy.Compile.Request.{ir_hostname_matches, ir_listener_specificity_score}
use proxy.L4.Router.{
  L4Context, routes_for_protocol, match_route, routing_sni, tcp_route, sum_weights, pick_backend,
}
use proxy.L4.Router.TlsRoute.{tcp_route_isolates, tcp_route_found}
use proxy.L4.Router.Backend.{IsWeightedSample, pick_backend_serves, sum_of}

abbrev backend_with : ℕ → WeightedBackend
backend_with weight = record {
  backend = codes "10.0.0.1:80";
  weight = weight;
  request_filters = [];
  protocol = BackendProtocol.http;
  tls = none;
}

abbrev route_for : HostnameMatch → CompiledL4Route
route_for hostname = record {
  listener_id = codes "tls";
  listener_hostname = hostname;
  match_ = L4Match.any;
  action = L4Action.tls_passthrough (backend_with 1 ∷ []);
  priority = 0;
}

abbrev wide : CompiledL4Route
wide = route_for HostnameMatch.any

abbrev narrow : CompiledL4Route
narrow = route_for (HostnameMatch.exact (codes "a.b"))

abbrev demo_config : CompiledL4Config
demo_config = record {
  listeners = [];
  tcp_routes = [];
  udp_routes = [];
  tls_routes = wide ∷ narrow ∷ [];
  https_routes = [];
  http_routes = [];
}

abbrev demo_ctx : L4Context
demo_ctx = record { listener_id = codes "tls"; protocol = Protocol.tls; sni = none }

demo_sni : routing_sni demo_ctx (some (codes "a.b")) ≡ some (codes "a.b")
unfolding routing_sni
demo_sni = refl

demo_route : tcp_route demo_config demo_ctx (some (codes "a.b")) ≡ some narrow
unfolding tcp_route str_eq ir_hostname_matches ir_listener_specificity_score
demo_route = refl

wide_there : Memᴰ wide (routes_for_protocol demo_config Protocol.tls)
unfolding routes_for_protocol
wide_there = Memᴰ.head refl

wide_fits : ir_hostname_matches (codes "a.b") wide.listener_hostname ≡ true
unfolding ir_hostname_matches
wide_fits = refl

tcp_route_isolates_example :
    Memᴰ narrow (routes_for_protocol demo_config Protocol.tls)
    × (narrow.listener_id ≡ demo_ctx.listener_id)
    × (ir_hostname_matches (codes "a.b") narrow.listener_hostname ≡ true)
    × (match_route narrow.match_ (some (codes "a.b")) ≡ true)
    × (ir_listener_specificity_score wide.listener_hostname
        ≤ ir_listener_specificity_score narrow.listener_hostname)
tcp_route_isolates_example =
    tcp_route_isolates demo_config demo_ctx (some (codes "a.b")) (codes "a.b") narrow wide refl
      demo_sni demo_route wide_there refl wide_fits

narrow_fits : ir_hostname_matches (codes "a.b") narrow.listener_hostname ≡ true
unfolding ir_hostname_matches str_eq
narrow_fits = refl

narrow_there : Memᴰ narrow (routes_for_protocol demo_config Protocol.tls)
unfolding routes_for_protocol
narrow_there = Memᴰ.tail (Memᴰ.head refl)

narrow_matches : match_route narrow.match_ (some (codes "a.b")) ≡ true
unfolding match_route
narrow_matches = refl

none_narrower :
    All
      (λ c.
        (c.listener_id ≢ demo_ctx.listener_id)
        ⊎ ((ir_hostname_matches (codes "a.b") c.listener_hostname ≡ false)
            ⊎ (ir_listener_specificity_score c.listener_hostname
                ≤ ir_listener_specificity_score narrow.listener_hostname)))
      (routes_for_protocol demo_config Protocol.tls)
unfolding routes_for_protocol ir_listener_specificity_score
none_narrower = (inr (inr (omega arith)), (inr (inr (omega arith)), tt))

tcp_route_found_example :
    (r : CompiledL4Route) × (tcp_route demo_config demo_ctx (some (codes "a.b")) ≡ some r)
    × (match_route r.match_ (some (codes "a.b")) ≡ true)
    × (ir_listener_specificity_score r.listener_hostname
        ≡ ir_listener_specificity_score narrow.listener_hostname)
tcp_route_found_example =
    tcp_route_found demo_config demo_ctx (some (codes "a.b")) (codes "a.b") narrow refl demo_sni
      narrow_there refl narrow_fits narrow_matches none_narrower

-- A sample that always draws the first index of a weight other than zero.
first_weight : ℕ → List ℕ → Option ℕ
first_weight n [] = none
first_weight n (zero ∷ ws) = first_weight (suc n) ws
first_weight n (suc w ∷ ws) = some n

first_weight_drawn :
    (n : ℕ) (ws : List ℕ)
    → 0 < sum_of ws
    → (i w : ℕ) × (first_weight n ws ≡ some (n + i)) × (get_elem? ws i ≡ some w) × (0 < w)
unfolding first_weight
first_weight_drawn n [] h = absurd (omega (arith, h))
first_weight_drawn n (zero ∷ ws) h =
    let (i, w, e, g, p) = first_weight_drawn (suc n) ws (omega (arith, h)) in
    (suc i, w, ground (arith, e), g, p)
first_weight_drawn n (suc w ∷ ws) h = (0, suc w, ground arith, refl, omega arith)

first_weight-IsWeightedSample : IsWeightedSample (first_weight 0)
first_weight-IsWeightedSample = record {
  drawn = λ ws h.
      let (i, w, e, g, p) = first_weight_drawn 0 ws h in
      (i, w, e ∙ ap (λ k. some k) (omega arith), g, p);
}

pick_backend_serves_example :
    (b : WeightedBackend) × Memᴰ b (backend_with 0 ∷ backend_with 2 ∷ [])
    × (pick_backend (first_weight 0) (backend_with 0 ∷ backend_with 2 ∷ []) ≡ some b)
    × ((0 < b.weight)
        ⊎ ((length (backend_with 0 ∷ backend_with 2 ∷ []) ≡ 1)
            ⊎ (sum_weights (backend_with 0 ∷ backend_with 2 ∷ []) ≡ 0)))
pick_backend_serves_example =
    pick_backend_serves (first_weight 0) (backend_with 0) (backend_with 2 ∷ [])
      first_weight-IsWeightedSample
