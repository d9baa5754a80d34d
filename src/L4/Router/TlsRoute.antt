-- ===== src/L4/Router/TlsRoute.antt =====
-- The route of a TLS connection, against the routes of the configuration.
use mathlib.Core.List.{Memᴰ}
use proxy.Common.{
  All, All-Memᴰ, ◌≢◌, ◌⊎◌, inl, inr, Bool, find, find-none, Option-cases, max_of-reached, false,
  ◌≤◌, ◌≡◌, refl, sym, ◌∙◌, true, Option, some, List, [], ◌∷◌, arith, filter, filter_sound,
  filter_complete, find_sound, max_of, max_of-le, ◌==◌, ==_iff,
}
use proxy.Common.Text.{Str, str_eq_iff}
use proxy.Compile.Types.{CompiledL4Route, CompiledL4Config}
use proxy.Compile.Request.{ir_hostname_matches, ir_listener_specificity_score}
use proxy.L4.Router.{
  L4Context, routes_for_protocol, match_route, on_listener, route_score, accepts_sni,
  tls_candidates, best_tls_route, find_tls_route, is_tls, routing_sni, tcp_route,
}

best_tls_route_sound :
    (cs : List CompiledL4Route) (sni : Str) (r c : CompiledL4Route)
    → best_tls_route cs sni ≡ some r
    → Memᴰ c cs
    → Memᴰ r cs × (match_route r.match_ (some sni) ≡ true) × (route_score c ≤ route_score r)
unfolding best_tls_route
best_tls_route_sound [] sni r c h m = elim m [ ]
best_tls_route_sound (x ∷ xs) sni r c h m =
    let top = max_of route_score (x ∷ xs) in
    let best = filter (λ k. route_score k == top) (x ∷ xs) in
    let (mb, hit) = find_sound (λ k. match_route k.match_ (some sni)) best r h in
    let (mr, at_top) = filter_sound (λ k. route_score k == top) (x ∷ xs) mb in
    (
      mr,
      hit,
      omega (arith, (==_iff (route_score r) top).0 at_top, max_of-le route_score (x ∷ xs) m),
    )

best_tls_route_mem :
    (cs : List CompiledL4Route) (sni : Str) (r : CompiledL4Route)
    → best_tls_route cs sni ≡ some r
    → Memᴰ r cs
unfolding best_tls_route
best_tls_route_mem [] sni r h = ground arith
best_tls_route_mem (x ∷ xs) sni r h = (best_tls_route_sound (x ∷ xs) sni r x h (Memᴰ.head refl)).0

tls_candidate :
    (routes : List CompiledL4Route) (ctx : L4Context) (sni : Str) (r : CompiledL4Route)
    → Memᴰ r (tls_candidates routes ctx sni)
    → Memᴰ r routes × (r.listener_id ≡ ctx.listener_id) × (accepts_sni sni r ≡ true)
tls_candidate routes ctx sni r m =
    let (m1, a) =
      filter_sound (λ k. accepts_sni sni k) (filter (λ k. on_listener ctx k) routes) m in
    let (m2, l) = filter_sound (λ k. on_listener ctx k) routes m1 in
    (m2, (str_eq_iff r.listener_id ctx.listener_id).0 l, a)

candidate_tls :
    (routes : List CompiledL4Route) (ctx : L4Context) (sni : Str) (r : CompiledL4Route)
    → Memᴰ r routes
    → r.listener_id ≡ ctx.listener_id
    → accepts_sni sni r ≡ true
    → Memᴰ r (tls_candidates routes ctx sni)
candidate_tls routes ctx sni r m l a =
    filter_complete (λ k. accepts_sni sni k) (filter (λ k. on_listener ctx k) routes)
      (filter_complete (λ k. on_listener ctx k) routes m
        ((str_eq_iff r.listener_id ctx.listener_id).1 l))
      a

tls_route :
    (config : CompiledL4Config) (ctx : L4Context) (peeked : Option Str) (sni : Str)
    → is_tls ctx.protocol ≡ true
    → routing_sni ctx peeked ≡ some sni
    → tcp_route config ctx peeked
      ≡ best_tls_route (tls_candidates (routes_for_protocol config ctx.protocol) ctx sni) sni
unfolding tcp_route find_tls_route
tls_route config ctx peeked sni t s = rw (s, t) refl

-- The route found for a connection on a TLS or HTTPS listener that brings a server name is one of
-- the protocol's routes on that listener, its listener host name and its own match accept the name,
-- and no route on the listener whose listener host name accepts the name has a more specific one.
pub tcp_route_isolates :
    (config : CompiledL4Config) (ctx : L4Context) (peeked : Option Str) (sni : Str)
    (r other : CompiledL4Route)
    → is_tls ctx.protocol ≡ true
    → routing_sni ctx peeked ≡ some sni
    → tcp_route config ctx peeked ≡ some r
    → Memᴰ other (routes_for_protocol config ctx.protocol)
    → other.listener_id ≡ ctx.listener_id
    → ir_hostname_matches sni other.listener_hostname ≡ true
    → Memᴰ r (routes_for_protocol config ctx.protocol)
      × (r.listener_id ≡ ctx.listener_id)
      × (ir_hostname_matches sni r.listener_hostname ≡ true)
      × (match_route r.match_ (some sni) ≡ true)
      × (ir_listener_specificity_score other.listener_hostname
          ≤ ir_listener_specificity_score r.listener_hostname)
tcp_route_isolates config ctx peeked sni r other t s h m l a =
    let routes = routes_for_protocol config ctx.protocol in
    let cs = tls_candidates routes ctx sni in
    let k : best_tls_route cs sni ≡ some r = sym (tls_route config ctx peeked sni t s) ∙ h in
    let (mr, hit, le) =
      best_tls_route_sound cs sni r other k (candidate_tls routes ctx sni other m l a) in
    let (here, on, fits) = tls_candidate routes ctx sni r mr in (here, on, fits, hit, le)

some_found :
    (p : CompiledL4Route → Bool) (xs : List CompiledL4Route) {a : CompiledL4Route}
    → Memᴰ a xs
    → p a ≡ true
    → (r : CompiledL4Route) × (find p xs ≡ some r)
some_found p xs {a} m h = elim (Option-cases (find p xs)) [
  | inl e ↦ absurd (ground (arith, find-none p xs a e m, h))
  | inr (r, e) ↦ (r, e)
]

-- A route of the greatest score that accepts the server name is enough.
best_tls_route_found :
    (cs : List CompiledL4Route) (sni : Str) (other : CompiledL4Route)
    → Memᴰ other cs
    → match_route other.match_ (some sni) ≡ true
    → route_score other ≡ max_of route_score cs
    → (r : CompiledL4Route) × (best_tls_route cs sni ≡ some r)
unfolding best_tls_route
best_tls_route_found [] sni other m hit top = elim m [ ]
best_tls_route_found (x ∷ xs) sni other m hit top =
    some_found (λ k. match_route k.match_ (some sni))
      (filter (λ k. route_score k == max_of route_score (x ∷ xs)) (x ∷ xs))
      (filter_complete (λ k. route_score k == max_of route_score (x ∷ xs)) (x ∷ xs) m
        ((==_iff (route_score other) (max_of route_score (x ∷ xs))).1 top))
      hit

-- The score of a candidate that no candidate exceeds is the greatest.
top_score :
    (cs : List CompiledL4Route) (other : CompiledL4Route)
    → Memᴰ other cs
    → ((c : CompiledL4Route) → Memᴰ c cs → route_score c ≤ route_score other)
    → route_score other ≡ max_of route_score cs
top_score [] other m le = elim m [ ]
top_score (x ∷ xs) other m le =
    let (c, mc, e) = max_of-reached route_score x xs in
    omega (arith, e, le c mc, max_of-le route_score (x ∷ xs) m)

-- A connection on a TLS or HTTPS listener that brings a server name finds a route, if one of the
-- protocol's routes on that listener has a match and a listener host name that accept the name, and
-- no route on the listener whose listener host name accepts the name has a more specific one. The
-- route found is as specific.
pub tcp_route_found :
    (config : CompiledL4Config) (ctx : L4Context) (peeked : Option Str) (sni : Str)
    (other : CompiledL4Route)
    → is_tls ctx.protocol ≡ true
    → routing_sni ctx peeked ≡ some sni
    → Memᴰ other (routes_for_protocol config ctx.protocol)
    → other.listener_id ≡ ctx.listener_id
    → ir_hostname_matches sni other.listener_hostname ≡ true
    → match_route other.match_ (some sni) ≡ true
    → All
        (λ c.
          (c.listener_id ≢ ctx.listener_id)
          ⊎ ((ir_hostname_matches sni c.listener_hostname ≡ false)
              ⊎ (ir_listener_specificity_score c.listener_hostname
                  ≤ ir_listener_specificity_score other.listener_hostname)))
        (routes_for_protocol config ctx.protocol)
    → (r : CompiledL4Route) × (tcp_route config ctx peeked ≡ some r)
      × (match_route r.match_ (some sni) ≡ true)
      × (ir_listener_specificity_score r.listener_hostname
          ≡ ir_listener_specificity_score other.listener_hostname)
tcp_route_found config ctx peeked sni other t s m l a hit le =
    let routes = routes_for_protocol config ctx.protocol in
    let cs = tls_candidates routes ctx sni in
    let mo = candidate_tls routes ctx sni other m l a in
    let below : (c : CompiledL4Route) → Memᴰ c cs → route_score c ≤ route_score other = λ c mc.
      let (here, on, fits) = tls_candidate routes ctx sni c mc in
      elim (All-Memᴰ _ routes le here) [
        | inl off ↦ absurd (off on)
        | inr (inl away) ↦ absurd (ground (arith, away, fits))
        | inr (inr k) ↦ k
      ] in
    let (r, e) = best_tls_route_found cs sni other mo hit (top_score cs other mo below) in
    let (mr, ok, ge) = best_tls_route_sound cs sni r other e mo in
    (r, tls_route config ctx peeked sni t s ∙ e, ok, omega (arith, ge, below r mr))
