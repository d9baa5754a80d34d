-- ===== src/Gateway/Layer4/Sound.antt =====
-- Every connection route of the table: its origin, and its listener.
use mathlib.Core.List.{Memᴰ}
use proxy.Common.{◌⊎◌, ◌++◌, All, ◌≡◌, false, ◌&&◌, ◌||◌, List, [], ◌∷◌, arith, map}
use proxy.Common.Text.{Str, is_empty}
use proxy.Common.BTreeMap.{IsOrdered}
use proxy.Ir
use proxy.Gateway.Hostnames.{HostnameMatch}
use proxy.Gateway.Model.{GatewayView}
use proxy.Gateway.Layer4.Listeners.{Layer4}
use proxy.Gateway.Layer4.{tls_hostnames, translate_l4_routes}
use proxy.Common.Order.{str_cmp}
use proxy.Gateway.Hostnames.Overlap.{hits, any_hits, pairs_exact}
use proxy.Gateway.Model.View.{ListenerState, GatewayState}
use proxy.Gateway.Layer4.Origin.{IsL4Route}

-- A route of the table: the listener that it is for, what made it, and how that listener is registered.
pub record IsTableRoute (view : GatewayView) (r : Ir.L4Route) : Type 0 where
  pub gateway : GatewayState
  pub listener : ListenerState
  pub origin : IsL4Route view r gateway listener
  pub id : r.listener_id ≡ gateway.namespace ++ b'/' ∷ gateway.name ++ b'/' ∷ listener.name
  pub registered :
      (listener.programmed ≡ false)
      ⊎ ((c : Ir.ListenerConfig) × Memᴰ c (translate_l4_routes view).0 × (c.id ≡ r.listener_id))

-- The configurations of a list of entries in the order of their keys, each under its own id.
pub record AreOrdered (cs : List Ir.ListenerConfig) : Type 0 where
  pub entries : List (Str × Ir.ListenerConfig)
  pub ordered : IsOrdered str_cmp entries
  pub under_ids : All (λ e. e.1.id ≡ e.0) entries
  pub configs : cs ≡ map (λ e. e.1) entries

-- The host names of a TLS route on a listener match exactly those that the listener matches and, where
-- the route has host names, one of them does.
pub tls_hostnames_exact :
    (hs : List HostnameMatch) (l : HostnameMatch) (host : Str)
    → any_hits host (tls_hostnames hs l) ≡ ((is_empty hs || any_hits host hs) && hits host l)
unfolding tls_hostnames
tls_hostnames_exact [] l host = ground arith
tls_hostnames_exact (h ∷ hs) l host = pairs_exact (h ∷ hs) l host
