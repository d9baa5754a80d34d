-- ===== src/Compile/L4/Merged.antt =====
-- The groups of listeners and what they are merged into: which listeners are in them.
use mathlib.Core.List.{Memᴰ}
use mathlib.Core.Path.{subst}
use proxy.Common.{
  ◌≡◌, refl, sym, ap, ◌∙◌, List, [], ◌∷◌, inl, inr, ◌⊎◌, Bool-cases, &&-split, Memᴰ-append,
  Memᴰ-append_left, Memᴰ-append_right, singleton_sound,
}
use proxy.Common.Text.{Str, str_eq, str_eq_iff}
use proxy.Compile.Types.{CompiledListener}
use proxy.Compile.L4.{
  Key, Groups, Merged, same_protocol, same_key, push_group, group_all, canonical_key, extend_entry,
  merge_all,
}

-- A listener in the group of a key.
abbrev pub IsIn : {K : Type 0} → K → CompiledListener → List (K × List CompiledListener) → Type 0
IsIn k x [] = ⊥
IsIn k x ((j, g) ∷ m) = ((k ≡ j) × Memᴰ x g) ⊎ IsIn k x m

module _ {K : Type 0} where
  pub IsIn_group :
      (k : K) (x : CompiledListener) (m : List (K × List CompiledListener))
      → IsIn k x m
      → (g : List CompiledListener) × Memᴰ (k, g) m × Memᴰ x g
  IsIn_group k x [] h = elim h [ ]
  IsIn_group k x ((j, g) ∷ m) (inl (e, h)) = (g, Memᴰ.head (ap (λ i. (i, g)) e), h)
  IsIn_group k x ((j, g) ∷ m) (inr h) = let (f, a, b) = IsIn_group k x m h in (f, Memᴰ.tail a, b)

  pub group-IsIn :
      (k : K) (x : CompiledListener) (g : List CompiledListener)
      (m : List (K × List CompiledListener))
      → Memᴰ (k, g) m
      → Memᴰ x g
      → IsIn k x m
  group-IsIn k x g [] n h = elim n [ ]
  group-IsIn k x g ((j, f) ∷ m) (Memᴰ.head e) h =
      inl (ap (λ p. p.0) e, subst (λ y. Memᴰ x y) (ap (λ p. p.1) e) h)
  group-IsIn k x g (e ∷ m) (Memᴰ.tail n) h = inr (group-IsIn k x g m n h)

push_group-keeps :
    (k : Key) (x l : CompiledListener) (m : Groups) → IsIn k x m → IsIn k x (push_group l m)
unfolding push_group
push_group-keeps k x l [] h = elim h [ ]
push_group-keeps k x l ((j, ls) ∷ m) h = elim (Bool-cases (same_key j (l.bind_addr, l.protocol))) [
  | inl e ↦ rw e (elim h [ inl (a, b) ↦ inl (a, Memᴰ-append_left ls (l ∷ []) b) | inr n ↦ inr n ])
  | inr e ↦ rw e (elim h [ inl a ↦ inl a | inr n ↦ inr (push_group-keeps k x l m n) ])
]

push_group-adds : (l : CompiledListener) (m : Groups) → (k : Key) × IsIn k l (push_group l m)
unfolding push_group
push_group-adds l [] = ((l.bind_addr, l.protocol), inl (refl, Memᴰ.head refl))
push_group-adds l ((j, ls) ∷ m) =
    let (k, h) = push_group-adds l m in
    elim (Bool-cases (same_key j (l.bind_addr, l.protocol))) [
      | inl e ↦ (j, rw e (inl (refl, Memᴰ-append_right ls (l ∷ []) (Memᴰ.head refl))))
      | inr e ↦ (k, rw e (inr h))
    ]

push_group_sound :
    (k : Key) (x l : CompiledListener) (m : Groups)
    → IsIn k x (push_group l m)
    → ((x ≡ l) × (k.0 ≡ l.bind_addr)) ⊎ IsIn k x m
unfolding push_group
push_group_sound k x l [] (inl (e, h)) = inl (singleton_sound h, ap (λ p. p.0) e)
push_group_sound k x l [] (inr h) = elim h [ ]
push_group_sound k x l ((j, ls) ∷ m) h = elim (Bool-cases (same_key j (l.bind_addr, l.protocol))) [
  | inl e ↦ elim (rw e at h) [
    | inl (a, b) ↦ elim (Memᴰ-append ls (l ∷ []) b) [
      | inl c ↦ inr (inl (a, c))
      | inr c ↦ inl (
        singleton_sound c,
        ap (λ p. p.0) a
            ∙ (str_eq_iff j.0 l.bind_addr).0
                (&&-split (str_eq j.0 l.bind_addr) (same_protocol j.1 l.protocol) e).0,
      )
    ]
    | inr n ↦ inr (inr n)
  ]
  | inr e ↦ elim (rw e at h) [
    | inl a ↦ inr (inl a)
    | inr n ↦ elim (push_group_sound k x l m n) [ inl a ↦ inl a | inr a ↦ inr (inr a) ]
  ]
]

group_all-keeps :
    (k : Key) (x : CompiledListener) (ls : List CompiledListener) (m : Groups)
    → IsIn k x m
    → IsIn k x (group_all ls m)
unfolding group_all
group_all-keeps k x [] m h = h
group_all-keeps k x (l ∷ ls) m h =
    group_all-keeps k x ls (push_group l m) (push_group-keeps k x l m h)

pub group_all_complete :
    (x : CompiledListener) (ls : List CompiledListener) (m : Groups)
    → Memᴰ x ls
    → (k : Key) × IsIn k x (group_all ls m)
unfolding group_all
group_all_complete x [] m h = elim h [ ]
group_all_complete x (l ∷ ls) m (Memᴰ.head e) =
    let (k, h) = push_group-adds l m in
    (k, group_all-keeps k x ls (push_group l m) (subst (λ y. IsIn k y (push_group l m)) (sym e) h))
group_all_complete x (l ∷ ls) m (Memᴰ.tail n) = group_all_complete x ls (push_group l m) n

pub group_all_sound :
    (k : Key) (x : CompiledListener) (ls : List CompiledListener) (m : Groups)
    → IsIn k x (group_all ls m)
    → (Memᴰ x ls × (k.0 ≡ x.bind_addr)) ⊎ IsIn k x m
unfolding group_all
group_all_sound k x [] m h = inr h
group_all_sound k x (l ∷ ls) m h = elim (group_all_sound k x ls (push_group l m) h) [
  | inl (a, b) ↦ inl (Memᴰ.tail a, b)
  | inr n ↦ elim (push_group_sound k x l m n) [
    | inl (a, b) ↦ inl (Memᴰ.head a, b ∙ ap (λ (y : CompiledListener). y.bind_addr) (sym a))
    | inr a ↦ inr a
  ]
]

extend_entry-keeps :
    (i k : Str) (x : CompiledListener) (g : List CompiledListener) (m : Merged)
    → IsIn i x m
    → IsIn i x (extend_entry k g m)
unfolding extend_entry
extend_entry-keeps i k x g [] h = elim h [ ]
extend_entry-keeps i k x g ((j, ls) ∷ m) h = elim (Bool-cases (str_eq j k)) [
  | inl e ↦ rw e (elim h [ inl (a, b) ↦ inl (a, Memᴰ-append_left ls g b) | inr n ↦ inr n ])
  | inr e ↦ rw e (elim h [ inl a ↦ inl a | inr n ↦ inr (extend_entry-keeps i k x g m n) ])
]

extend_entry-adds :
    (k : Str) (x : CompiledListener) (g : List CompiledListener) (m : Merged)
    → Memᴰ x g
    → IsIn k x (extend_entry k g m)
unfolding extend_entry
extend_entry-adds k x g [] h = inl (refl, h)
extend_entry-adds k x g ((j, ls) ∷ m) h = elim (Bool-cases (str_eq j k)) [
  | inl e ↦ rw e (inl (sym ((str_eq_iff j k).0 e), Memᴰ-append_right ls g h))
  | inr e ↦ rw e (inr (extend_entry-adds k x g m h))
]

extend_entry_sound :
    (i k : Str) (x : CompiledListener) (g : List CompiledListener) (m : Merged)
    → IsIn i x (extend_entry k g m)
    → ((i ≡ k) × Memᴰ x g) ⊎ IsIn i x m
unfolding extend_entry
extend_entry_sound i k x g [] (inl h) = inl h
extend_entry_sound i k x g [] (inr h) = elim h [ ]
extend_entry_sound i k x g ((j, ls) ∷ m) h = elim (Bool-cases (str_eq j k)) [
  | inl e ↦ elim (rw e at h) [
    | inl (a, b) ↦ elim (Memᴰ-append ls g b) [
      | inl c ↦ inr (inl (a, c))
      | inr c ↦ inl (a ∙ (str_eq_iff j k).0 e, c)
    ]
    | inr n ↦ inr (inr n)
  ]
  | inr e ↦ elim (rw e at h) [
    | inl a ↦ inr (inl a)
    | inr n ↦ elim (extend_entry_sound i k x g m n) [ inl a ↦ inl a | inr a ↦ inr (inr a) ]
  ]
]

merge_all-keeps :
    (all gs : Groups) (i : Str) (x : CompiledListener) (m : Merged)
    → IsIn i x m
    → IsIn i x (merge_all all gs m)
unfolding merge_all
merge_all-keeps all [] i x m h = h
merge_all-keeps all ((k, g) ∷ gs) i x m h =
    merge_all-keeps all gs i x _ (extend_entry-keeps i (canonical_key all k) x g m h)

pub merge_all_complete :
    (all gs : Groups) (k : Key) (x : CompiledListener) (m : Merged)
    → IsIn k x gs
    → IsIn (canonical_key all k) x (merge_all all gs m)
unfolding merge_all
merge_all_complete all [] k x m h = elim h [ ]
merge_all_complete all ((j, g) ∷ gs) k x m (inl (e, h)) =
    merge_all-keeps all gs (canonical_key all k) x _ (
      subst (λ i. IsIn i x (extend_entry (canonical_key all j) g m))
        (ap (canonical_key all) (sym e)) (extend_entry-adds (canonical_key all j) x g m h))
merge_all_complete all ((j, g) ∷ gs) k x m (inr h) = merge_all_complete all gs k x _ h

pub merge_all_sound :
    (all gs : Groups) (i : Str) (x : CompiledListener) (m : Merged)
    → IsIn i x (merge_all all gs m)
    → ((k : Key) × (i ≡ canonical_key all k) × IsIn k x gs) ⊎ IsIn i x m
unfolding merge_all
merge_all_sound all [] i x m h = inr h
merge_all_sound all ((j, g) ∷ gs) i x m h = elim (merge_all_sound all gs i x _ h) [
  | inl (k, e, n) ↦ inl (k, e, inr n)
  | inr n ↦ elim (extend_entry_sound i (canonical_key all j) x g m n) [
    | inl (a, b) ↦ inl (j, a, inl (refl, b))
    | inr a ↦ inr a
  ]
]
