-- ===== src/Gateway/Effective.antt =====
-- src/gateway/translate/hostnames.rs: the host names that a route has on the listeners of its
-- parents.
pub mod Attached
pub mod Sound
pub mod Complete
use proxy.Common.{
  ℕ, Bool, true, false, not, ◌&&◌, ◌||◌, ◌==◌, Option, none, some, List, [], ◌∷◌, ◌++◌, map, filter,
  find, flat_map, if◌then◌else◌, unwrap_or, is_some,
}
use proxy.Common.Text.{Str, codes, str_eq, is_empty}
use proxy.Common.KeyMap.{get}
use mathlib.Core.Option
use proxy.Gateway.Hostnames.{
  HostnameMatch, parse_listener_hostname, intersect_hostnames, listener_hostname_intersects,
}
use proxy.Gateway.Namespaces.{
  AllowedRoutes, RouteNamespaces, NamespaceFrom, listener_allows_kind, namespace_allowed,
}
use proxy.Gateway.Model.{GatewayView, ListenerAllowedMap}
use proxy.Gateway.Model.View.{ParentRef, ListenerState, GatewayState, ListenerSetState}

-- The trait: what the function reads of a route.
pub record RouteHostnames : Type 0 where
  pub namespace : Str
  pub parent_refs : List ParentRef
  pub hostnames : List HostnameMatch

pub record EffectiveHostname : Type 0 where
  pub route_hostname : HostnameMatch
  pub listener_hostname : HostnameMatch
  pub listener_port : Option ℕ
  pub client_cert_id : Option Str
  pub listener_id : Option Str

-- The listeners of a parent, whether it was found, what its listeners allow, and its certificate.
pub record Parent : Type 0 where
  pub listeners : List ListenerState
  pub found : Bool
  pub allowed_map : ListenerAllowedMap
  pub client_cert_id : Option Str

abbrev pub parent_ns : Str → ParentRef → Str
parent_ns route_ns parent = unwrap_or route_ns parent.namespace

abbrev pub section_fits : Option Str → ListenerState → Bool
section_fits none l = true
section_fits (some section) l = str_eq l.name section

abbrev pub port_fits : Option ℕ → ListenerState → Bool
port_fits none l = true
port_fits (some p) l = p == l.port

-- The section and the port of a parent reference.
abbrev pub selected : ParentRef → ListenerState → Bool
selected parent l = section_fits parent.section_name l && port_fits parent.port l

abbrev pub from_set : GatewayView → ParentRef → Option ListenerSetState → Parent
from_set view parent none = record {
  listeners = [];
  found = false;
  allowed_map = view.listener_set_allowed;
  client_cert_id = none;
}
from_set view parent (some s) =
    if s.programmed
    then record {
      listeners = filter (selected parent) s.listeners;
      found = true;
      allowed_map = view.listener_set_allowed;
      client_cert_id = none;
    }
    else record {
      listeners = [];
      found = false;
      allowed_map = view.listener_set_allowed;
      client_cert_id = none;
    }

abbrev pub from_gateway : GatewayView → ParentRef → Option GatewayState → Parent
from_gateway view parent none = record {
  listeners = [];
  found = false;
  allowed_map = view.listener_allowed;
  client_cert_id = none;
}
from_gateway view parent (some g) = record {
  listeners = filter (λ l. l.programmed && selected parent l) g.listeners;
  found = true;
  allowed_map = view.listener_allowed;
  client_cert_id = g.backend_client_cert_id;
}

abbrev pub find_set : GatewayView → Str → Str → Option ListenerSetState
find_set view ns name = find (λ s. str_eq s.namespace ns && str_eq s.name name) view.listener_sets

abbrev pub find_gateway : List GatewayState → Str → Str → Option GatewayState
find_gateway gateways ns name = find (λ g. str_eq g.namespace ns && str_eq g.name name) gateways

-- The `match kind` on a parent reference.
unfoldable pub find_parent : GatewayView → Str → ParentRef → Parent
find_parent view ns parent =
    if str_eq parent.kind (codes "ListenerSet")
    then from_set view parent (find_set view ns parent.name)
    else from_gateway view parent (find_gateway view.gateways ns parent.name)

abbrev pub key_eq : Str × Str × Str → Str × Str × Str → Bool
key_eq (a, b, c) (x, y, z) = str_eq a x && str_eq b y && str_eq c z

-- `AllowedRoutes::default`.
abbrev pub default_allowed : AllowedRoutes
default_allowed = record {
  kinds = [];
  namespaces = record { from = NamespaceFrom.same; selector = none };
}

abbrev pub group_name : Str
group_name = codes "gateway.networking.k8s.io"

abbrev pub allowed_of : Parent → Str → Str → ListenerState → AllowedRoutes
allowed_of p ns name l = unwrap_or default_allowed (get key_eq (ns, name, l.name) p.allowed_map)

-- The three tests of a listener.
unfoldable pub admits :
    GatewayView → RouteHostnames → Str → Str → Str → Parent → ListenerState → Bool
admits view route route_kind ns name p l =
    listener_allows_kind (allowed_of p ns name l) group_name route_kind
    && namespace_allowed (allowed_of p ns name l).namespaces route.namespace ns
        view.namespace_labels
    && listener_hostname_intersects l.hostname route.hostnames

-- `attached_listeners`.
unfoldable pub attached :
    GatewayView → RouteHostnames → Str → Str → Str → Parent → List ListenerState
unfolding admits
attached view route route_kind ns name p =
    if p.found then filter (admits view route route_kind ns name p) p.listeners else []

abbrev pub listener_id : Str → Str → ListenerState → Str
listener_id ns name l = ns ++ b'/' ∷ name ++ b'/' ∷ l.name

abbrev pub listener_match : ListenerState → HostnameMatch
listener_match l =
    unwrap_or (HostnameMatch.exact []) (Option.map parse_listener_hostname l.hostname)

-- A host name on a listener.
abbrev pub on_listener : Parent → Str → Str → ListenerState → HostnameMatch → EffectiveHostname
on_listener p ns name l hostname = record {
  route_hostname = hostname;
  listener_hostname = listener_match l;
  listener_port = some l.port;
  client_cert_id = p.client_cert_id;
  listener_id = some (listener_id ns name l);
}

-- A host name on no listener in particular.
abbrev pub anywhere : HostnameMatch → EffectiveHostname
anywhere hostname = record {
  route_hostname = hostname;
  listener_hostname = HostnameMatch.any;
  listener_port = none;
  client_cert_id = none;
  listener_id = none;
}

-- The host names on a listener of a route that has none, and of one that has some.
abbrev pub own_hostname : ListenerState → HostnameMatch
own_hostname l = if is_some l.hostname then listener_match l else HostnameMatch.any

abbrev pub hostnames_on :
    RouteHostnames → Parent → Str → Str → ListenerState → List EffectiveHostname
hostnames_on route p ns name l =
    map (on_listener p ns name l) (intersect_hostnames route.hostnames l.hostname)

-- The end of the loop's body, by whether the route has host names and which listeners are attached.
unfoldable pub without_hostnames : Parent → Str → Str → List ListenerState → List EffectiveHostname
without_hostnames p ns name [] = anywhere HostnameMatch.any ∷ []
without_hostnames p ns name (l ∷ ls) = map (λ k. on_listener p ns name k (own_hostname k)) (l ∷ ls)

unfoldable pub with_hostnames :
    RouteHostnames → Parent → Str → Str → List ListenerState → List EffectiveHostname
with_hostnames route p ns name ls =
    if p.found then flat_map (hostnames_on route p ns name) ls else map anywhere route.hostnames

-- The body of the loop over the parents.
unfoldable pub effective_on :
    GatewayView → RouteHostnames → Str → ParentRef → List EffectiveHostname
unfolding find_parent attached without_hostnames with_hostnames
effective_on view route route_kind parent =
    let ns = parent_ns route.namespace parent in
    let p = find_parent view ns parent in
    let ls = attached view route route_kind ns parent.name p in
    if is_empty route.hostnames
    then without_hostnames p ns parent.name ls
    else with_hostnames route p ns parent.name ls

unfoldable pub compute_effective_hostnames :
    GatewayView → RouteHostnames → Str → List EffectiveHostname
unfolding effective_on
compute_effective_hostnames view route route_kind =
    flat_map (effective_on view route route_kind) route.parent_refs
