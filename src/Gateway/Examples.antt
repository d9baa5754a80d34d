-- ===== src/Gateway/Examples.antt =====
-- Host name patterns that overlap, a grant, and a namespace selector.
use mathlib.Core.List.{Memᴰ}
use proxy.Common.HashMap.{get}
use proxy.Common.Text.{Str}
use proxy.Common.{◌↔◌, ◌⊎◌, none}
use mathlib.Core.List.{List}
use proxy.Gateway.Grants.{ReferenceGrantState, is_permitted, Grants, is_permitted_iff}
use proxy.Gateway.Namespaces.{
  NamespaceFrom, RouteNamespaces, namespace_allowed, Selected, namespace_allowed_iff,
}
use proxy.Common.{◌≡◌, refl, true, ◌&&◌, some, [], ◌∷◌}
use proxy.Common.Text.{codes, str_eq, strip_suffix, ends_with}
use proxy.Compile.Request.{ir_hostname_matches}
use proxy.Gateway.Hostnames.{
  HostnameMatch, to_ir_hostname, is_hostname_subset, intersect_hostnames, parse_listener_hostname,
}
use proxy.Gateway.Hostnames.Overlap.{hits, any_hits, intersect_hostnames_exact}

abbrev deep : HostnameMatch
deep = HostnameMatch.wildcard (codes "a.b.c")

abbrev wide : HostnameMatch
wide = HostnameMatch.wildcard (codes "b.c")

deep_in_wide : is_hostname_subset deep wide ≡ true
unfolding is_hostname_subset str_eq strip_suffix ends_with
deep_in_wide = refl

deep_hit : hits (codes "x.a.b.c") deep ≡ true
unfolding ir_hostname_matches to_ir_hostname strip_suffix
deep_hit = refl

intersect_hostnames_exact_example :
    any_hits (codes "x.a.b.c") (intersect_hostnames (wide ∷ []) (some (codes "*.a.b.c"))) ≡ (
      any_hits (codes "x.a.b.c") (wide ∷ [])
      && hits (codes "x.a.b.c") (parse_listener_hostname (codes "*.a.b.c")))
intersect_hostnames_exact_example =
    intersect_hostnames_exact (wide ∷ []) (codes "*.a.b.c") (codes "x.a.b.c")

abbrev demo_grant : ReferenceGrantState
demo_grant = record {
  namespace_ = codes "backend";
  name = codes "g";
  from =
      record {
        group = codes "gateway.networking.k8s.io";
        kind = codes "HTTPRoute";
        namespace_ = some (codes "web");
        name = none;
      }
      ∷ [];
  to = record { group = []; kind = codes "Service"; namespace_ = none; name = none } ∷ [];
}

is_permitted_iff_example :
    (is_permitted
        (codes "web")
        (codes "gateway.networking.k8s.io")
        (codes "HTTPRoute")
        (codes "backend")
        []
        (codes "Service")
        (codes "api")
        (demo_grant ∷ [])
      ≡ true)
    ↔ ((codes "web" ≡ codes "backend")
        ⊎ ((g : ReferenceGrantState) × Memᴰ g (demo_grant ∷ [])
            × Grants
                (codes "web")
                (codes "gateway.networking.k8s.io")
                (codes "HTTPRoute")
                (codes "backend")
                []
                (codes "Service")
                (codes "api")
                g))
is_permitted_iff_example =
    is_permitted_iff (codes "web") (codes "gateway.networking.k8s.io") (codes "HTTPRoute")
      (codes "backend") [] (codes "Service") (codes "api") (demo_grant ∷ [])

abbrev by_label : RouteNamespaces
by_label = record {
  from = NamespaceFrom.selector;
  selector = some ((codes "team", codes "a") ∷ []);
}

abbrev demo_labels : List (Str × List (Str × Str))
demo_labels = (codes "web", (codes "team", codes "a") ∷ []) ∷ []

namespace_allowed_iff_example :
    (namespace_allowed by_label (codes "web") (codes "infra") demo_labels ≡ true) ↔ (
      (by_label.from ≡ NamespaceFrom.all_)
      ⊎ (((by_label.from ≡ NamespaceFrom.same) × (codes "web" ≡ codes "infra"))
          ⊎ ((by_label.from ≡ NamespaceFrom.selector)
              × Selected by_label.selector (get (codes "web") demo_labels))))
namespace_allowed_iff_example =
    namespace_allowed_iff by_label (codes "web") (codes "infra") demo_labels
