-- ===== src/Gateway/Hostnames.antt =====
-- src/gateway/translate/hostnames.rs: when host name patterns overlap, on the patterns of
-- src/gateway/model/routing.rs.
pub mod Overlap
use proxy.Common.{
  Bool, true, false, ◌||◌, Option, none, some, List, [], ◌∷◌, filter_map, is_some_and,
  if◌then◌else◌,
}
use proxy.Common.Text.{Str, codes, str_eq, strip_prefix, strip_suffix, ends_with}
use proxy.Ir
use proxy.Compile.Request.{under_suffix}

pub data HostnameMatch : Type 0 where
  exact : Str → HostnameMatch
  wildcard : Str → HostnameMatch
  any : HostnameMatch

unfoldable pub to_ir_hostname : HostnameMatch → Ir.HostnameMatch
to_ir_hostname (HostnameMatch.exact s) = Ir.HostnameMatch.exact s
to_ir_hostname (HostnameMatch.wildcard s) = Ir.HostnameMatch.wildcard s
to_ir_hostname HostnameMatch.any = Ir.HostnameMatch.any

unfoldable pub parse_listener_hostname : Str → HostnameMatch
parse_listener_hostname hostname = elim (strip_prefix hostname (codes "*.")) [
  | some rest ↦ HostnameMatch.wildcard rest
  | none ↦ HostnameMatch.exact hostname
]

abbrev pub deeper : Str → Str → Bool
deeper c p = is_some_and (λ rest. ends_with rest (codes ".")) (strip_suffix c p)

unfoldable pub is_hostname_subset : HostnameMatch → HostnameMatch → Bool
is_hostname_subset child HostnameMatch.any = true
is_hostname_subset (HostnameMatch.exact c) (HostnameMatch.exact p) = str_eq c p
is_hostname_subset (HostnameMatch.exact c) (HostnameMatch.wildcard p) = under_suffix c p
is_hostname_subset (HostnameMatch.wildcard c) (HostnameMatch.wildcard p) = str_eq c p || deeper c p
is_hostname_subset (HostnameMatch.wildcard c) (HostnameMatch.exact p) = false
is_hostname_subset HostnameMatch.any (HostnameMatch.exact p) = false
is_hostname_subset HostnameMatch.any (HostnameMatch.wildcard p) = false

unfoldable pub hostname_intersects : HostnameMatch → HostnameMatch → Bool
unfolding is_hostname_subset
hostname_intersects a b = is_hostname_subset a b || is_hostname_subset b a

unfoldable pub intersect_hostname_pair : HostnameMatch → HostnameMatch → Option HostnameMatch
unfolding is_hostname_subset
intersect_hostname_pair a b =
    if is_hostname_subset a b then some a else (if is_hostname_subset b a then some b else none)

unfoldable pub intersect_hostnames : List HostnameMatch → Option Str → List HostnameMatch
unfolding intersect_hostname_pair parse_listener_hostname
intersect_hostnames route_hostnames none = route_hostnames
intersect_hostnames route_hostnames (some lh) =
    filter_map (λ rh. intersect_hostname_pair rh (parse_listener_hostname lh)) route_hostnames

-- src/gateway/reconcile/parent.rs.
unfoldable pub listener_hostname_intersects : Option Str → List HostnameMatch → Bool
unfolding hostname_intersects parse_listener_hostname
listener_hostname_intersects lh [] = true
listener_hostname_intersects none (rh ∷ rhs) = true
listener_hostname_intersects (some lh) (rh ∷ rhs) =
    proxy.Common.any (λ r. hostname_intersects r (parse_listener_hostname lh)) (rh ∷ rhs)
