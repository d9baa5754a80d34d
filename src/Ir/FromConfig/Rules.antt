-- ===== src/Ir/FromConfig/Rules.antt =====
-- Which rules a route of the configuration becomes.
use mathlib.Core.List.{Memᴰ}
use mathlib.Core.List.Memᴰ
use proxy.Common.{
  ℕ, ◌+◌, ◌≡◌, refl, ◌⊎◌, inl, inr, Option, none, some, List, [], ◌∷◌, length, Memᴰ-append,
}
use proxy.Common.Text.{Str}
use proxy.Config.{PathRoute, RouteConfig}
use proxy.Ir.{Rule, HostRoute}
use proxy.Ir.PathRoutes.{pushed}
use proxy.Ir.FromConfig.{
  path_rules, catch_all, rules_or_catch_all, static_rule, host_rules, path_rule, host_route,
  from_route_configs,
}

-- A rule of a path route.
pub path_rules-mem :
    (route : RouteConfig) (order : ℕ) (prs : List PathRoute) (r : Rule)
    → Memᴰ r (path_rules route order prs)
    → (pr : PathRoute) × Memᴰ pr prs × (n : ℕ) × (r ≡ path_rule route n pr)
unfolding path_rules
path_rules-mem route order [] r m = elim m [ ]
path_rules-mem route order (pr ∷ prs) r (Memᴰ.head e) = (pr, Memᴰ.head refl, order, e)
path_rules-mem route order (pr ∷ prs) r (Memᴰ.tail m) =
    let (qr, k, n, e) = path_rules-mem route (order + 1) prs r m in (qr, Memᴰ.tail k, n, e)

pub Memᴰ-pushed {ℓ κ} :
    {A : Type ℓ} {B : Type κ} (f : A → B) (o : Option A) {b : B}
    → Memᴰ b (pushed f o)
    → (a : A) × (o ≡ some a) × (b ≡ f a)
Memᴰ-pushed f none m = elim m [ ]
Memᴰ-pushed f (some a) m = elim (Memᴰ.cases_cons m) [ inl e ↦ (a, refl, e) | inr k ↦ elim k [ ] ]

first_rules-mem :
    (route : RouteConfig) (prs : List PathRoute) (r : Rule)
    → Memᴰ r (rules_or_catch_all route (path_rules route 0 prs))
    → ((pr : PathRoute) × Memᴰ pr prs × (n : ℕ) × (r ≡ path_rule route n pr))
      ⊎ ((prs ≡ []) × (r ≡ catch_all route))
unfolding path_rules
first_rules-mem route [] r m = elim (Memᴰ.cases_cons m) [
  | inl e ↦ inr (refl, e)
  | inr k ↦ elim k [ ]
]
first_rules-mem route (pr ∷ prs) r m = inl (path_rules-mem route 0 (pr ∷ prs) r m)

-- A rule of a host comes from a path route, or is the catch-all of a host without any, or serves the
-- host's static root.
pub host_rules-mem :
    (route : RouteConfig) (r : Rule)
    → Memᴰ r (host_rules route)
    → ((pr : PathRoute) × Memᴰ pr route.paths × (n : ℕ) × (r ≡ path_rule route n pr))
      ⊎ (((route.paths ≡ []) × (r ≡ catch_all route))
          ⊎ ((root : Str) × (route.static_root ≡ some root)
              × (r ≡ static_rule route (length route.paths) root)))
unfolding host_rules
host_rules-mem route r m = elim (Memᴰ-append _ _ m) [
  | inl k ↦ elim (first_rules-mem route route.paths r k) [ inl a ↦ inl a | inr b ↦ inr (inl b) ]
  | inr k ↦ inr (inr (Memᴰ-pushed (static_rule route (length route.paths)) route.static_root k))
]

-- A host of the table comes from a route.
pub hosts-mem :
    (routes : List RouteConfig) (h : HostRoute)
    → Memᴰ h (from_route_configs routes).hosts
    → (route : RouteConfig) × Memᴰ route routes × (h ≡ host_route route)
unfolding from_route_configs
hosts-mem [] h m = elim m [ ]
hosts-mem (route ∷ routes) h (Memᴰ.head e) = (route, Memᴰ.head refl, e)
hosts-mem (route ∷ routes) h (Memᴰ.tail m) =
    let (other, k, e) = hosts-mem routes h (unfold from_route_configs in m) in
    (other, Memᴰ.tail k, e)
