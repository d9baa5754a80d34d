-- ===== src/Compile/L4/Addresses.antt =====
-- Every listener is in a merged group, and those of one merged group have the same address.
use mathlib.Core.List.{Memᴰ}
use proxy.Common.{
  ◌≡◌, refl, sym, ap, ◌∙◌, Bool, true, false, ◌&&◌, List, [], ◌∷◌, ◌++◌, any, arith, inl, inr,
  Bool-cases, ◌==◌,
}
use proxy.Common.Text.{Str, codes}
use proxy.Ir.{Protocol}
use proxy.Compile.Types.{CompiledListener}
use proxy.Compile.L4.{
  Key, Groups, Merged, debug, over_tls, shared_tls, group_all, canonical_key, merge_all, merged_of,
}
use proxy.Compile.L4.Merged.{
  IsIn, IsIn_group, group-IsIn, group_all_complete, group_all_sound, merge_all_complete,
  merge_all_sound,
}

-- The code of `#`.
abbrev has_hash : Str → Bool
has_hash s = any (λ c. c == 35) s

has_hash-tagged : (b t : Str) → has_hash (b ++ 35 ∷ t) ≡ true
has_hash-tagged [] t = refl
has_hash-tagged (c ∷ b) t = ground (arith, has_hash-tagged b t)

-- The address before the only `#`.
tagged-injective :
    (a b s t : Str) → a ++ 35 ∷ s ≡ b ++ 35 ∷ t → has_hash s ≡ false → has_hash t ≡ false → a ≡ b
tagged-injective [] [] s t e p q = refl
tagged-injective [] (c ∷ b) s t e p q =
    let k : s ≡ b ++ 35 ∷ t = ground (arith, e) in
    absurd (ground (arith, ap has_hash k, has_hash-tagged b t, p))
tagged-injective (c ∷ a) [] s t e p q =
    let k : a ++ 35 ∷ s ≡ t = ground (arith, e) in
    absurd (ground (arith, ap has_hash k, has_hash-tagged a s, q))
tagged-injective (c ∷ a) (d ∷ b) s t e p q =
    let h : c ≡ d = ground (arith, e) in
    let k : a ++ 35 ∷ s ≡ b ++ 35 ∷ t = ground (arith, e) in
    ap (λ x. x ∷ a) h ∙ ap (λ x. d ∷ x) (tagged-injective a b s t k p q)

debug_no_hash : (p : Protocol) → has_hash (debug p) ≡ false
debug_no_hash Protocol.http = refl
debug_no_hash Protocol.https = refl
debug_no_hash Protocol.tcp = refl
debug_no_hash Protocol.udp = refl
debug_no_hash Protocol.tls = refl

canonical_key_tagged :
    (all : Groups) (k : Key)
    → (s : Str) × (canonical_key all k ≡ k.0 ++ 35 ∷ s) × (has_hash s ≡ false)
unfolding canonical_key
canonical_key_tagged all (addr, p) = elim (Bool-cases (over_tls p && shared_tls addr all)) [
  | inl e ↦ (codes "tls", rw e refl, refl)
  | inr e ↦ (debug p, rw e refl, debug_no_hash p)
]

canonical_key_addr :
    (all : Groups) (j k : Key) → canonical_key all j ≡ canonical_key all k → j.0 ≡ k.0
canonical_key_addr all j k e =
    let (s, p, u) = canonical_key_tagged all j in
    let (t, q, v) = canonical_key_tagged all k in tagged-injective j.0 k.0 s t (sym p ∙ e ∙ q) u v

-- `iter` goes through exactly the entries of a map, in some order.
pub record IsIteration {A : Type 0} (iter : List A → List A) : Type 0 where
  pub sound : (m : List A) (a : A) → Memᴰ a (iter m) → Memᴰ a m
  pub complete : (m : List A) (a : A) → Memᴰ a m → Memᴰ a (iter m)

module _ (iter_groups : Groups → Groups) (iter_merged : Merged → Merged)
    (ig : IsIteration iter_groups) (im : IsIteration iter_merged) (ls : List CompiledListener) where
  pub merged_of_complete :
      (x : CompiledListener)
      → Memᴰ x ls
      → (i : Str) × IsIn i x (merged_of iter_groups iter_merged ls)
  unfolding merged_of
  merged_of_complete x m =
      let groups = group_all ls [] in
      let (k, h) = group_all_complete x ls [] m in
      let (g, a, b) = IsIn_group k x groups h in
      let i = canonical_key groups k in
      let all = merge_all groups (iter_groups groups) [] in
      let n =
        merge_all_complete groups (iter_groups groups) k x []
          (group-IsIn k x g (iter_groups groups) (ig.complete groups (k, g) a) b) in
      let (f, c, d) = IsIn_group i x all n in
      (i, group-IsIn i x f (iter_merged all) (im.complete all (i, f) c) d)

  found_group :
      (i : Str) (x : CompiledListener)
      → IsIn i x (merged_of iter_groups iter_merged ls)
      → (k : Key) × (i ≡ canonical_key (group_all ls []) k) × (Memᴰ x ls × (k.0 ≡ x.bind_addr))
  unfolding merged_of
  found_group i x h =
      let groups = group_all ls [] in
      let all = merge_all groups (iter_groups groups) [] in
      let (f, c, d) = IsIn_group i x (iter_merged all) h in
      elim (merge_all_sound groups (iter_groups groups) i x []
        (group-IsIn i x f all (im.sound all (i, f) c) d)) [
          | inl (k, e, n) ↦
              let (g, a, b) = IsIn_group k x (iter_groups groups) n in
              elim (group_all_sound k x ls []
                (group-IsIn k x g groups (ig.sound groups (k, g) a) b)) [
                  | inl r ↦ (k, e, r)
                  | inr n ↦ elim n [ ]
                ]
          | inr n ↦ elim n [ ]
        ]

  pub merged_of_sound :
      (i : Str) (x : CompiledListener) → IsIn i x (merged_of iter_groups iter_merged ls) → Memᴰ x ls
  merged_of_sound i x h = let (k, e, m) = found_group i x h in m.0

  -- The listeners of a merged group have the same address.
  pub merged_of_addr :
      (i : Str) (x y : CompiledListener)
      → IsIn i x (merged_of iter_groups iter_merged ls)
      → IsIn i y (merged_of iter_groups iter_merged ls)
      → x.bind_addr ≡ y.bind_addr
  merged_of_addr i x y h n =
      let (j, d, p) = found_group i x h in
      let (k, e, q) = found_group i y n in
      sym p.1 ∙ canonical_key_addr (group_all ls []) j k (sym d ∙ e) ∙ q.1
