-- ===== src/Compile/L4.antt =====
-- src/ir/compile.rs: `CompiledL4Config::compile`. The orders in which its two maps of groups are
-- iterated are the parameters `iter_groups` and `iter_merged`; `group[0]` is the head of a group,
-- which is never empty.
pub mod Merged
pub mod Addresses
pub mod Ids
pub mod Routes
pub mod Renamed
use proxy.Common.{
  ℕ, Bool, true, false, ◌&&◌, ◌||◌, not, Option, none, some, List, [], ◌∷◌, ◌++◌, map, any, find,
  filter, filter_map, is_some, or_else, unwrap_or, if◌then◌else◌, ◌==◌, ltb, Option-cases,
}
use proxy.Common.Text.{Str, codes, str_eq}
use proxy.Common.HashMap.{get, insert}
use proxy.Common.Sort.{sort_by}
use proxy.Ir.{
  Protocol, TlsConfig, FrontendValidation, ListenerConfig, L4Action, L4Route, RouteTable,
}
use proxy.Compile.Types.{
  CompiledTlsConfig, CompiledFrontendValidation, CompiledListener, CompiledL4Route,
  CompiledL4Config, CompileError, Result, ok, err, ◌>>=◌,
}

compile_tls : TlsConfig → CompiledTlsConfig
compile_tls (TlsConfig.registry cert_id) = CompiledTlsConfig.registry cert_id
compile_tls (TlsConfig.files cert_path key_path) = CompiledTlsConfig.files cert_path key_path

-- `{:?}` of a protocol.
abbrev pub debug : Protocol → Str
debug Protocol.http = codes "Http"
debug Protocol.https = codes "Https"
debug Protocol.tcp = codes "Tcp"
debug Protocol.udp = codes "Udp"
debug Protocol.tls = codes "Tls"

abbrev pub same_protocol : Protocol → Protocol → Bool
same_protocol p q = str_eq (debug p) (debug q)

-- `matches!(protocol, Protocol::Https | Protocol::Tls)`.
abbrev pub over_tls : Protocol → Bool
over_tls Protocol.https = true
over_tls Protocol.tls = true
over_tls _ = false

abbrev pub lacks_tls : ListenerConfig → Bool
lacks_tls l = over_tls l.protocol && not (is_some l.tls)

abbrev tls_message : ListenerConfig → Str
tls_message l =
    codes "listener "
    ++ (l.id ++ (codes " (" ++ (debug l.protocol ++ codes ") requires TLS configuration")))

abbrev map_option {ℓ κ} : {A : Type ℓ} {B : Type κ} → (A → B) → Option A → Option B
map_option f none = none
map_option f (some a) = some (f a)

abbrev compile_validation : FrontendValidation → CompiledFrontendValidation
compile_validation v = record {
  ca_bundle_pem = v.ca_bundle_pem;
  allow_insecure_fallback = v.allow_insecure_fallback;
}

-- The body of the first loop.
unfoldable pub compile_listener : ListenerConfig → Result CompiledListener
unfolding compile_tls
compile_listener l =
    if lacks_tls l
    then err (CompileError.message (tls_message l))
    else ok (record {
      id = l.id;
      bind_addr = l.bind_addr;
      protocol = l.protocol;
      tls = map_option compile_tls l.tls;
      redirect_http_to_https = l.redirect_http_to_https;
      frontend_validation = map_option compile_validation l.frontend_validation;
    })

unfoldable pub compile_listeners : List ListenerConfig → Result (List CompiledListener)
unfolding compile_listener
compile_listeners [] = ok []
compile_listeners (l ∷ ls) = do
  listener ← compile_listener l
  rest ← compile_listeners ls
  ok (listener ∷ rest)

abbrev pub Key : Type 0
Key = Str × Protocol

abbrev pub Groups : Type 0
Groups = List (Key × List CompiledListener)

abbrev same_key : Key → Key → Bool
same_key (a, p) (b, q) = str_eq a b && same_protocol p q

-- `listener_groups.entry(…).or_default().push(l)`.
push_group : CompiledListener → Groups → Groups
push_group l [] = ((l.bind_addr, l.protocol), l ∷ []) ∷ []
push_group l ((k, ls) ∷ groups) =
    if same_key k (l.bind_addr, l.protocol)
    then (k, ls ++ l ∷ []) ∷ groups
    else (k, ls) ∷ push_group l groups

pub group_all : List CompiledListener → Groups → Groups
group_all [] groups = groups
group_all (l ∷ ls) groups = group_all ls (push_group l groups)

has_key : Key → Groups → Bool
has_key key groups = any (λ e. same_key e.0 key) groups

-- `shared_tls_addrs.contains(&bind_addr)`.
shared_tls : Str → Groups → Bool
shared_tls addr groups =
    has_key (addr, Protocol.https) groups && has_key (addr, Protocol.tls) groups

pub canonical_key : Groups → Key → Str
canonical_key groups (addr, protocol) =
    if over_tls protocol && shared_tls addr groups
    then addr ++ codes "#tls"
    else addr ++ (codes "#" ++ debug protocol)

abbrev pub Merged : Type 0
Merged = List (Str × List CompiledListener)

-- `merged.entry(key).or_default().extend(group)`.
extend_entry : Str → List CompiledListener → Merged → Merged
extend_entry k group [] = (k, group) ∷ []
extend_entry k group ((j, ls) ∷ m) =
    if str_eq j k then (j, ls ++ group) ∷ m else (j, ls) ∷ extend_entry k group m

pub merge_all : Groups → Groups → Merged → Merged
merge_all all_groups [] m = m
merge_all all_groups ((k, group) ∷ groups) m =
    merge_all all_groups groups (extend_entry (canonical_key all_groups k) group m)

abbrev validations : List CompiledListener → List CompiledFrontendValidation
validations group = filter_map (λ (l : CompiledListener). l.frontend_validation) group

abbrev head_of {ℓ} : {A : Type ℓ} → List A → Option A
head_of [] = none
head_of (x ∷ xs) = some x

-- The listener of a merged group.
merge_group : Str × List CompiledListener → Option CompiledListener
merge_group (key, group) =
    map_option
      (λ (first : CompiledListener). record {
        id = key;
        bind_addr = first.bind_addr;
        protocol =
            if any (λ (l : CompiledListener). same_protocol l.protocol Protocol.tls) group
            then Protocol.tls
            else first.protocol;
        tls = head_of (filter_map (λ (l : CompiledListener). l.tls) group);
        redirect_http_to_https = any (λ (l : CompiledListener). l.redirect_http_to_https) group;
        frontend_validation =
            or_else
              (find (λ (v : CompiledFrontendValidation). not v.allow_insecure_fallback)
                (validations group))
              (head_of (validations group));
      })
      (head_of group)

-- `listener_id_map.insert(…)` for the listeners of a group, and of all groups.
map_ids : Str → List CompiledListener → List (Str × Str) → List (Str × Str)
map_ids key [] m = m
map_ids key (l ∷ ls) m = map_ids key ls (insert l.id key m)

pub map_all_ids : Merged → List (Str × Str) → List (Str × Str)
map_all_ids [] m = m
map_all_ids ((key, group) ∷ rest) m = map_all_ids rest (map_ids key group m)

-- `a.cmp(&b)` on texts is `Greater`.
text_gt : Str → Str → Bool
text_gt [] b = false
text_gt (x ∷ a) [] = true
text_gt (x ∷ a) (y ∷ b) = let rest = text_gt a b in if x == y then rest else ltb y x

-- The second loop: a route with its listener's new identifier, in the list of its action.
abbrev pub compile_route : List (Str × Str) → L4Route → CompiledL4Route
compile_route ids route = record {
  listener_id = unwrap_or route.listener_id (get route.listener_id ids);
  listener_hostname = route.listener_hostname;
  match_ = route.match_;
  action = route.action;
  priority = 0;
}

abbrev pub push_route : CompiledL4Route → L4Action → CompiledL4Config → CompiledL4Config
push_route r (L4Action.tcp_relay _) c = record c { tcp_routes = c.tcp_routes ++ r ∷ [] }
push_route r (L4Action.udp_relay _) c = record c { udp_routes = c.udp_routes ++ r ∷ [] }
push_route r (L4Action.tls_passthrough _) c = record c { tls_routes = c.tls_routes ++ r ∷ [] }
push_route r (L4Action.tls_terminate _) c = record c { tls_routes = c.tls_routes ++ r ∷ [] }
push_route r (L4Action.terminate_and_http _) c = record c {
  https_routes = c.https_routes ++ r ∷ [];
}
push_route r (L4Action.http_relay _) c = record c { http_routes = c.http_routes ++ r ∷ [] }

unfoldable pub push_routes : List (Str × Str) → List L4Route → CompiledL4Config → CompiledL4Config
push_routes ids [] c = c
push_routes ids (route ∷ routes) c =
    push_routes ids routes (push_route (compile_route ids route) route.action c)

module _ (iter_groups : Groups → Groups) (iter_merged : Merged → Merged) where
  pub merged_of : List CompiledListener → Merged
  unfolding group_all push_group merge_all extend_entry canonical_key shared_tls has_key
  merged_of listeners =
      let groups = group_all listeners [] in iter_merged (merge_all groups (iter_groups groups) [])

  pub with_listeners : Merged → CompiledL4Config
  unfolding merge_group text_gt
  with_listeners m = record {
    listeners = sort_by (λ (a b : CompiledListener). text_gt a.id b.id) (filter_map merge_group m);
    tcp_routes = [];
    udp_routes = [];
    tls_routes = [];
    https_routes = [];
    http_routes = [];
  }

  -- `CompiledL4Config::compile`.
  unfoldable pub compile_l4 : RouteTable → Result CompiledL4Config
  unfolding compile_listeners merged_of with_listeners map_all_ids map_ids push_routes
  compile_l4 ir = do
    listeners ← compile_listeners ir.listeners
    ok (
        push_routes (map_all_ids (merged_of listeners) []) ir.l4_routes
          (with_listeners (merged_of listeners)))
