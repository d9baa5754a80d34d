-- ===== src/Compile/L4/Renamed.antt =====
-- The routes of the configuration: each has the identifier of the listener that its own was merged
-- into.
use mathlib.Core.List.{Memᴰ}
use mathlib.Core.Path.{subst}
use proxy.Common.{
  ◌≡◌, ◌≢◌, refl, sym, ap, ◌∙◌, true, some, List, [], ◌∷◌, map, filter, inl, inr, All, All-of,
  Bool-cases, Option-cases, unwrap_or, arith, filter_map_complete, is_some,
}
use proxy.Common.Text.{Str}
use proxy.Common.HashMap.{get}
use proxy.Common.Sort.{sort_by-mem}
use proxy.Ir.{Protocol, ListenerConfig, L4Route, RouteTable}
use proxy.Compile.Types.{
  CompiledListener, CompiledL4Route, CompiledL4Config, Result, ok, err, CompileError, ◌>>=◌,
}
use proxy.Compile.L4.{
  Groups, Merged, lacks_tls, compile_listener, compile_listeners, merge_group, merged_of,
  with_listeners, map_all_ids, text_gt, compile_l4,
}
use proxy.Compile.L4.Merged.{IsIn, IsIn_group, group-IsIn}
use proxy.Compile.L4.Addresses.{IsIteration, merged_of_complete, merged_of_sound, merged_of_addr}
use proxy.Compile.L4.Ids.{map_all_ids_complete, map_all_ids_sound}
use proxy.Compile.L4.Routes.{of_class, routes_of, routes_built}

-- What compiling keeps of a listener.
record IsCompiled (l : ListenerConfig) (x : CompiledListener) : Type 0 where
  id : l.id ≡ x.id
  bind_addr : l.bind_addr ≡ x.bind_addr

ok-injective : {A : Type 0} {a b : A} → ok a ≡ ok b → a ≡ b
ok-injective h = cc

ok-err : {A : Type 0} {e : CompileError} {a : A} → err e ≡ ok a → ⊥
ok-err h = ground (arith, h)

bind_ok :
    {A B : Type 0} (m : Result A) (f : A → Result B) {b : B}
    → m >>= f ≡ ok b
    → (a : A) × (m ≡ ok a) × (f a ≡ ok b)
bind_ok (ok a) f h = (a, refl, h)
bind_ok (err e) f h = absurd (ok-err h)

compile_listener-IsCompiled :
    (l : ListenerConfig) (x : CompiledListener) → compile_listener l ≡ ok x → IsCompiled l x
unfolding compile_listener
compile_listener-IsCompiled l x h = elim (Bool-cases (lacks_tls l)) [
  | inl e ↦ absurd (ok-err (rw e at h))
  | inr e ↦
      let k = ok-injective (rw e at h) in
      record {
        id = ap (λ (y : CompiledListener). y.id) k;
        bind_addr = ap (λ (y : CompiledListener). y.bind_addr) k;
      }
]

-- The compiled listeners are those of the route table, each way.
compile_listeners_sound :
    (ls : List ListenerConfig) (xs : List CompiledListener) (x : CompiledListener)
    → compile_listeners ls ≡ ok xs
    → Memᴰ x xs
    → (l : ListenerConfig) × Memᴰ l ls × IsCompiled l x
unfolding compile_listeners
compile_listeners_sound [] xs x h m = elim (subst (λ y. Memᴰ x y) (sym (ok-injective h)) m) [ ]
compile_listeners_sound (l ∷ ls) xs x h m =
    let (y, e, k) = bind_ok (compile_listener l) _ h in
    let (ys, f, n) = bind_ok (compile_listeners ls) _ k in
    elim (subst (λ zs. Memᴰ x zs) (sym (ok-injective n)) m) [
      | Memᴰ.head s ↦
          (l, Memᴰ.head refl, subst (IsCompiled l) (sym s) (compile_listener-IsCompiled l y e))
      | Memᴰ.tail r ↦ let (o, p, q) = compile_listeners_sound ls ys x f r in (o, Memᴰ.tail p, q)
    ]

compile_listeners_complete :
    (ls : List ListenerConfig) (xs : List CompiledListener) (l : ListenerConfig)
    → compile_listeners ls ≡ ok xs
    → Memᴰ l ls
    → (x : CompiledListener) × Memᴰ x xs × IsCompiled l x
unfolding compile_listeners
compile_listeners_complete [] xs l h m = elim m [ ]
compile_listeners_complete (j ∷ ls) xs l h m =
    let (y, e, k) = bind_ok (compile_listener j) _ h in
    let (ys, f, n) = bind_ok (compile_listeners ls) _ k in
    let same = ok-injective n in
    elim m [
      | Memᴰ.head s ↦ (
        y,
        subst (λ zs. Memᴰ y zs) same (Memᴰ.head refl),
        subst (λ i. IsCompiled i y) (sym s) (compile_listener-IsCompiled j y e),
      )
      | Memᴰ.tail r ↦
          let (x, p, q) = compile_listeners_complete ls ys l f r in
          (x, subst (λ zs. Memᴰ x zs) same (Memᴰ.tail p), q)
    ]

-- A merged group gives a listener of its key and its first listener's address.
merge_group_found :
    (key : Str) (g : List CompiledListener) (x : CompiledListener)
    → Memᴰ x g
    → (y f : CompiledListener) × (merge_group (key, g) ≡ some y)
      × (y.id ≡ key)
      × Memᴰ f g
      × (y.bind_addr ≡ f.bind_addr)
unfolding merge_group
merge_group_found key [] x m = elim m [ ]
merge_group_found key (f ∷ g) x m = (_, f, refl, refl, Memᴰ.head refl, refl)

-- The new identifier of a route's listener: that of a listener of the configuration with the address
-- of a listener with the old one, or, where no listener has the old one, the old one.
pub data IsRenamed (ir : RouteTable) (c : CompiledL4Config) (id new : Str) : Type 0 where
  known :
      (l : ListenerConfig)
      → Memᴰ l ir.listeners
      → l.id ≡ id
      → (y : CompiledListener) → Memᴰ y c.listeners
      → y.id ≡ new
      → y.bind_addr ≡ l.bind_addr
      → IsRenamed ir c id new
  unknown : All (λ (l : ListenerConfig). l.id ≢ id) ir.listeners → new ≡ id → IsRenamed ir c id new

-- A route with another identifier for its listener.
abbrev pub with_listener : (Str → Str) → L4Route → CompiledL4Route
with_listener rename route = record {
  listener_id = rename route.listener_id;
  listener_hostname = route.listener_hostname;
  match_ = route.match_;
  action = route.action;
  priority = 0;
}

module _ (iter_groups : Groups → Groups) (iter_merged : Merged → Merged)
    (ig : IsIteration iter_groups) (im : IsIteration iter_merged) (ir : RouteTable)
    (c : CompiledL4Config) (ls : List CompiledListener)
    (compiled : compile_listeners ir.listeners ≡ ok ls)
    (listeners : c.listeners
      ≡ (with_listeners iter_groups iter_merged
          (merged_of iter_groups iter_merged ls)).listeners) where
  listed :
      (v : Str) (x : CompiledListener)
      → IsIn v x (merged_of iter_groups iter_merged ls)
      → (y : CompiledListener) × Memᴰ y c.listeners × (y.id ≡ v) × (y.bind_addr ≡ x.bind_addr)
  unfolding with_listeners
  listed v x h =
      let m = merged_of iter_groups iter_merged ls in
      let (g, a, b) = IsIn_group v x m h in
      let (y, f, e, i, mf, addr) = merge_group_found v g x b in
      (
        y,
        subst (λ zs. Memᴰ y zs) (sym listeners)
            (sort_by-mem (λ (a b : CompiledListener). text_gt a.id b.id) _
              (filter_map_complete merge_group m a e)),
        i,
        addr ∙ merged_of_addr iter_groups iter_merged ig im ls v f x (group-IsIn v f g m a mf) h,
      )

  renamed :
      (id : Str)
      → IsRenamed ir c id
          (unwrap_or id (get id (map_all_ids (merged_of iter_groups iter_merged ls) [])))
  renamed id =
      let m = merged_of iter_groups iter_merged ls in
      elim (Option-cases (get id (map_all_ids m []))) [
        | inl e ↦ rw e (
            IsRenamed.unknown
              (All-of (λ (l : ListenerConfig). l.id ≢ id) ir.listeners
                (λ l ml same.
                  let (x, mx, s) = compile_listeners_complete ir.listeners ls l compiled ml in
                  let (i, h) = merged_of_complete iter_groups iter_merged ig im ls x mx in
                  let has =
                    subst (λ j. is_some (get j (map_all_ids m [])) ≡ true) (sym s.id ∙ same)
                      (map_all_ids_complete i x m [] h) in
                  ground (arith, has, e)))
              refl)
        | inr (v, e) ↦ rw e (elim (map_all_ids_sound id v m [] e) [
          | inl (x, h, s) ↦
              let mx = merged_of_sound iter_groups iter_merged ig im ls v x h in
              let (l, ml, t) = compile_listeners_sound ir.listeners ls x compiled mx in
              let (y, my, i, addr) = listed v x h in
              IsRenamed.known l ml (t.id ∙ s) y my i (addr ∙ sym t.bind_addr)
          | inr h ↦ absurd (unfold get in ground (arith, h))
        ])
      ]

-- The routes of a compiled configuration that serve a protocol are the route table's routes whose
-- action belongs to it, in their order, with their listeners' new identifiers. The new identifier of
-- a route's listener is that of one of the configuration's listeners, whose address is that of a
-- listener of the route table with the old identifier; where no listener has the old one, it stays.
-- The two maps are iterated over exactly their entries, in any order.
pub compile_l4-routes_of :
    (iter_groups : Groups → Groups) (iter_merged : Merged → Merged) (ir : RouteTable)
    (c : CompiledL4Config) (p : Protocol)
    → IsIteration iter_groups
    → IsIteration iter_merged
    → compile_l4 iter_groups iter_merged ir ≡ ok c
    → (rename : Str → Str) × All
        (λ route. IsRenamed ir c route.listener_id (rename route.listener_id))
        ir.l4_routes
      × (routes_of c p ≡ map (with_listener rename) (filter (of_class p) ir.l4_routes))
unfolding compile_l4
compile_l4-routes_of iter_groups iter_merged ir c p ig im h =
    let (ls, k, _) = bind_ok (compile_listeners ir.listeners) _ h in
    let (same, listeners) = routes_built iter_groups iter_merged ir c p ls k h in
    let ids = map_all_ids (merged_of iter_groups iter_merged ls) [] in
    (
      λ id. unwrap_or id (get id ids),
      All-of _ ir.l4_routes
          (λ route m. renamed iter_groups iter_merged ig im ir c ls k listeners route.listener_id),
      same,
    )
