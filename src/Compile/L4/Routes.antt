-- ===== src/Compile/L4/Routes.antt =====
-- The L4 configuration against the listeners and routes of the route table.
use proxy.Common.{
  ◌≡◌, refl, sym, ap, ◌∙◌, Bool, true, false, not, ◌&&◌, ◌||◌, List, [], ◌∷◌, ◌++◌, map, any,
  filter, append_assoc, append-nil, inl, inr, Bool-cases, if◌then◌else◌,
}
use proxy.Common.Text.{Str, str_eq}
use proxy.Ir.{Protocol, ListenerConfig, L4Action, L4Route, RouteTable}
use proxy.Compile.Types.{
  CompiledListener, CompiledL4Route, CompiledL4Config, Result, ok, err, ◌>>=◌,
}
use proxy.Compile.L4.{
  Groups, Merged, same_protocol, lacks_tls, compile_listener, compile_listeners, compile_route,
  push_route, push_routes, merged_of, with_listeners, map_all_ids, compile_l4,
}

-- The protocol whose routes an action belongs to.
abbrev pub class_of : L4Action → Protocol
class_of (L4Action.tcp_relay _) = Protocol.tcp
class_of (L4Action.udp_relay _) = Protocol.udp
class_of (L4Action.tls_passthrough _) = Protocol.tls
class_of (L4Action.tls_terminate _) = Protocol.tls
class_of (L4Action.terminate_and_http _) = Protocol.https
class_of (L4Action.http_relay _) = Protocol.http

-- The list of a configuration that serves a protocol.
abbrev pub routes_of : CompiledL4Config → Protocol → List CompiledL4Route
routes_of c Protocol.tcp = c.tcp_routes
routes_of c Protocol.udp = c.udp_routes
routes_of c Protocol.tls = c.tls_routes
routes_of c Protocol.https = c.https_routes
routes_of c Protocol.http = c.http_routes

abbrev pub of_class : Protocol → L4Route → Bool
of_class p route = same_protocol (class_of route.action) p

abbrev pub is_ok {ℓ} : {A : Type ℓ} → Result A → Bool
is_ok (ok _) = true
is_ok (err _) = false

push_route-routes_of :
    (r : CompiledL4Route) (action : L4Action) (p : Protocol) (c : CompiledL4Config)
    → routes_of (push_route r action c) p
      ≡ routes_of c p ++ (if same_protocol (class_of action) p then r ∷ [] else [])
unfolding str_eq
push_route-routes_of r (L4Action.tcp_relay bs) Protocol.tcp c = refl
push_route-routes_of r (L4Action.tcp_relay bs) Protocol.udp c = sym (append-nil c.udp_routes)
push_route-routes_of r (L4Action.tcp_relay bs) Protocol.tls c = sym (append-nil c.tls_routes)
push_route-routes_of r (L4Action.tcp_relay bs) Protocol.https c = sym (append-nil c.https_routes)
push_route-routes_of r (L4Action.tcp_relay bs) Protocol.http c = sym (append-nil c.http_routes)
push_route-routes_of r (L4Action.udp_relay bs) Protocol.tcp c = sym (append-nil c.tcp_routes)
push_route-routes_of r (L4Action.udp_relay bs) Protocol.udp c = refl
push_route-routes_of r (L4Action.udp_relay bs) Protocol.tls c = sym (append-nil c.tls_routes)
push_route-routes_of r (L4Action.udp_relay bs) Protocol.https c = sym (append-nil c.https_routes)
push_route-routes_of r (L4Action.udp_relay bs) Protocol.http c = sym (append-nil c.http_routes)
push_route-routes_of r (L4Action.tls_passthrough bs) Protocol.tcp c = sym (append-nil c.tcp_routes)
push_route-routes_of r (L4Action.tls_passthrough bs) Protocol.udp c = sym (append-nil c.udp_routes)
push_route-routes_of r (L4Action.tls_passthrough bs) Protocol.tls c = refl
push_route-routes_of r (L4Action.tls_passthrough bs) Protocol.https c =
    sym (append-nil c.https_routes)
push_route-routes_of r (L4Action.tls_passthrough bs) Protocol.http c =
    sym (append-nil c.http_routes)
push_route-routes_of r (L4Action.tls_terminate bs) Protocol.tcp c = sym (append-nil c.tcp_routes)
push_route-routes_of r (L4Action.tls_terminate bs) Protocol.udp c = sym (append-nil c.udp_routes)
push_route-routes_of r (L4Action.tls_terminate bs) Protocol.tls c = refl
push_route-routes_of r (L4Action.tls_terminate bs) Protocol.https c =
    sym (append-nil c.https_routes)
push_route-routes_of r (L4Action.tls_terminate bs) Protocol.http c = sym (append-nil c.http_routes)
push_route-routes_of r (L4Action.terminate_and_http bs) Protocol.tcp c =
    sym (append-nil c.tcp_routes)
push_route-routes_of r (L4Action.terminate_and_http bs) Protocol.udp c =
    sym (append-nil c.udp_routes)
push_route-routes_of r (L4Action.terminate_and_http bs) Protocol.tls c =
    sym (append-nil c.tls_routes)
push_route-routes_of r (L4Action.terminate_and_http bs) Protocol.https c = refl
push_route-routes_of r (L4Action.terminate_and_http bs) Protocol.http c =
    sym (append-nil c.http_routes)
push_route-routes_of r (L4Action.http_relay bs) Protocol.tcp c = sym (append-nil c.tcp_routes)
push_route-routes_of r (L4Action.http_relay bs) Protocol.udp c = sym (append-nil c.udp_routes)
push_route-routes_of r (L4Action.http_relay bs) Protocol.tls c = sym (append-nil c.tls_routes)
push_route-routes_of r (L4Action.http_relay bs) Protocol.https c = sym (append-nil c.https_routes)
push_route-routes_of r (L4Action.http_relay bs) Protocol.http c = refl

push_routes-routes_of :
    (ids : List (Str × Str)) (routes : List L4Route) (p : Protocol) (c : CompiledL4Config)
    → routes_of (push_routes ids routes c) p
      ≡ routes_of c p ++ map (compile_route ids) (filter (of_class p) routes)
unfolding push_routes
push_routes-routes_of ids [] p c = sym (append-nil (routes_of c p))
push_routes-routes_of ids (route ∷ routes) p c =
    let r = compile_route ids route in
    let rest = map (compile_route ids) (filter (of_class p) routes) in
    let step = push_routes-routes_of ids routes p (push_route r route.action c) in
    let pushed = push_route-routes_of r route.action p c in
    let both = step ∙ ap (λ l. l ++ rest) pushed in
    elim (Bool-cases (of_class p route)) [
      | inl e ↦ (rw e at both) ∙ append_assoc (routes_of c p) (r ∷ []) rest ∙ rw e refl
      | inr e ↦ (rw e at both) ∙ append_assoc (routes_of c p) [] rest ∙ rw e refl
    ]

push_route-listeners :
    (r : CompiledL4Route) (action : L4Action) (c : CompiledL4Config)
    → (push_route r action c).listeners ≡ c.listeners
push_route-listeners r (L4Action.tcp_relay bs) c = refl
push_route-listeners r (L4Action.udp_relay bs) c = refl
push_route-listeners r (L4Action.tls_passthrough bs) c = refl
push_route-listeners r (L4Action.tls_terminate bs) c = refl
push_route-listeners r (L4Action.terminate_and_http bs) c = refl
push_route-listeners r (L4Action.http_relay bs) c = refl

push_routes-listeners :
    (ids : List (Str × Str)) (routes : List L4Route) (c : CompiledL4Config)
    → (push_routes ids routes c).listeners ≡ c.listeners
unfolding push_routes
push_routes-listeners ids [] c = refl
push_routes-listeners ids (route ∷ routes) c =
    push_routes-listeners ids routes (push_route (compile_route ids route) route.action c)
    ∙ push_route-listeners (compile_route ids route) route.action c

no_routes :
    (iter_groups : Groups → Groups) (iter_merged : Merged → Merged) (m : Merged) (p : Protocol)
    → routes_of (with_listeners iter_groups iter_merged m) p ≡ []
unfolding with_listeners
no_routes iter_groups iter_merged m Protocol.tcp = refl
no_routes iter_groups iter_merged m Protocol.udp = refl
no_routes iter_groups iter_merged m Protocol.tls = refl
no_routes iter_groups iter_merged m Protocol.https = refl
no_routes iter_groups iter_merged m Protocol.http = refl

and_true : (b : Bool) → (b && true) ≡ b
and_true true = refl
and_true false = refl

not_or : (a b : Bool) → (not a && not b) ≡ not (a || b)
not_or true b = refl
not_or false b = refl

is_ok->>= {ℓ κ} :
    {A : Type ℓ} {B : Type κ} (m : Result A) (f : A → Result B) (b : Bool)
    → ((a : A) → is_ok (f a) ≡ b)
    → is_ok (m >>= f) ≡ (is_ok m && b)
is_ok->>= (ok a) f b h = h a
is_ok->>= (err e) f b h = refl

compile_listener-is_ok : (l : ListenerConfig) → is_ok (compile_listener l) ≡ not (lacks_tls l)
unfolding compile_listener
compile_listener-is_ok l = elim (Bool-cases (lacks_tls l)) [ inl e ↦ rw e refl | inr e ↦ rw e refl ]

compile_listeners-is_ok :
    (ls : List ListenerConfig) → is_ok (compile_listeners ls) ≡ not (any lacks_tls ls)
unfolding compile_listeners
compile_listeners-is_ok [] = refl
compile_listeners-is_ok (l ∷ ls) =
    is_ok->>= (compile_listener l) _ (is_ok (compile_listeners ls)) (λ listener.
      is_ok->>= (compile_listeners ls) _ true (λ rest. refl)
      ∙ and_true (is_ok (compile_listeners ls)))
    ∙ rw (compile_listener-is_ok l, compile_listeners-is_ok ls)
        (not_or (lacks_tls l) (any lacks_tls ls))

-- The L4 configuration of a route table compiles exactly when every listener for HTTPS or TLS has a
-- TLS configuration.
pub compile_l4_ok :
    (iter_groups : Groups → Groups) (iter_merged : Merged → Merged) (ir : RouteTable)
    → is_ok (compile_l4 iter_groups iter_merged ir) ≡ not (any lacks_tls ir.listeners)
unfolding compile_l4
compile_l4_ok iter_groups iter_merged ir =
    is_ok->>= (compile_listeners ir.listeners) _ true (λ ls. refl)
    ∙ rw (compile_listeners-is_ok ir.listeners) (and_true (not (any lacks_tls ir.listeners)))

-- The routes as the code makes them.
pub routes_built :
    (iter_groups : Groups → Groups) (iter_merged : Merged → Merged) (ir : RouteTable)
    (c : CompiledL4Config) (p : Protocol) (ls : List CompiledListener)
    → compile_listeners ir.listeners ≡ ok ls
    → compile_l4 iter_groups iter_merged ir ≡ ok c
    → (routes_of c p
        ≡ map
            (compile_route (map_all_ids (merged_of iter_groups iter_merged ls) []))
            (filter (of_class p) ir.l4_routes))
      × (c.listeners
          ≡ (with_listeners iter_groups iter_merged
              (merged_of iter_groups iter_merged ls)).listeners)
unfolding compile_l4
routes_built iter_groups iter_merged ir c p ls k h =
    let m = merged_of iter_groups iter_merged ls in
    let ids = map_all_ids m [] in
    let start = with_listeners iter_groups iter_merged m in
    let built : ok (push_routes ids ir.l4_routes start) ≡ ok c = rw k at h in
    let same : push_routes ids ir.l4_routes start ≡ c = cc in
    (
      ap (λ d. routes_of d p) (sym same)
          ∙ push_routes-routes_of ids ir.l4_routes p start
          ∙ ap (λ l. l ++ map (compile_route ids) (filter (of_class p) ir.l4_routes))
              (no_routes iter_groups iter_merged m p),
      ap (λ (d : CompiledL4Config). d.listeners) (sym same)
          ∙ push_routes-listeners ids ir.l4_routes start,
    )
