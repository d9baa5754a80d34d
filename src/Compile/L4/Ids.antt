-- ===== src/Compile/L4/Ids.antt =====
-- The new identifiers of the listeners: each listener's is the key of a merged group that holds one
-- with its identifier.
use mathlib.Core.List.{Memᴰ}
use mathlib.Core.Path.{subst}
use proxy.Common.{
  ◌≡◌, refl, sym, ap, ◌∙◌, true, false, some, List, [], ◌∷◌, arith, inl, inr, ◌⊎◌, is_some,
  Bool-cases,
}
use proxy.Common.Text.{Str, str_eq, str_eq_iff, str_eq_refl}
use proxy.Common.HashMap.{get, insert}
use proxy.Compile.Types.{CompiledListener}
use proxy.Compile.L4.{Merged, map_ids, map_all_ids}
use proxy.Compile.L4.Merged.{IsIn}

abbrev Ids : Type 0
Ids = List (Str × Str)

get-insert_self : (k v : Str) (m : Ids) → get k (insert k v m) ≡ some v
unfolding get insert
get-insert_self k v [] = rw (str_eq_refl k) refl
get-insert_self k v ((j, w) ∷ m) = elim (Bool-cases (str_eq j k)) [
  | inl e ↦ rw (e, e) refl
  | inr e ↦ rw (e, e) (get-insert_self k v m)
]

get-insert_other : (i k v : Str) (m : Ids) → str_eq k i ≡ false → get i (insert k v m) ≡ get i m
unfolding get insert
get-insert_other i k v [] h = rw h refl
get-insert_other i k v ((j, w) ∷ m) h =
    ground (arith, h, str_eq_iff j k, str_eq_iff j i, str_eq_iff k i, get-insert_other i k v m h)

-- An identifier with a value keeps one.
insert-keeps :
    (i k v : Str) (m : Ids) → is_some (get i m) ≡ true → is_some (get i (insert k v m)) ≡ true
insert-keeps i k v m h = elim (Bool-cases (str_eq k i)) [
  | inl e ↦
      subst (λ j. is_some (get j (insert k v m)) ≡ true) ((str_eq_iff k i).0 e)
        (ap is_some (get-insert_self k v m))
  | inr e ↦ rw (get-insert_other i k v m e) h
]

map_ids-keeps :
    (key i : Str) (g : List CompiledListener) (m : Ids)
    → is_some (get i m) ≡ true
    → is_some (get i (map_ids key g m)) ≡ true
unfolding map_ids
map_ids-keeps key i [] m h = h
map_ids-keeps key i (l ∷ ls) m h =
    map_ids-keeps key i ls (insert l.id key m) (insert-keeps i l.id key m h)

map_ids-adds :
    (key : Str) (x : CompiledListener) (g : List CompiledListener) (m : Ids)
    → Memᴰ x g
    → is_some (get x.id (map_ids key g m)) ≡ true
unfolding map_ids
map_ids-adds key x [] m h = elim h [ ]
map_ids-adds key x (l ∷ ls) m (Memᴰ.head e) = map_ids-keeps key x.id ls (insert l.id key m) (
    subst (λ (y : CompiledListener). is_some (get y.id (insert l.id key m)) ≡ true) (sym e)
      (ap is_some (get-insert_self l.id key m)))
map_ids-adds key x (l ∷ ls) m (Memᴰ.tail n) = map_ids-adds key x ls (insert l.id key m) n

map_ids_sound :
    (key i v : Str) (g : List CompiledListener) (m : Ids)
    → get i (map_ids key g m) ≡ some v
    → ((v ≡ key) × (x : CompiledListener) × Memᴰ x g × (x.id ≡ i)) ⊎ (get i m ≡ some v)
unfolding map_ids
map_ids_sound key i v [] m h = inr h
map_ids_sound key i v (l ∷ ls) m h = elim (map_ids_sound key i v ls (insert l.id key m) h) [
  | inl (e, x, n, s) ↦ inl (e, x, Memᴰ.tail n, s)
  | inr k ↦ elim (Bool-cases (str_eq l.id i)) [
    | inl e ↦
        let s = (str_eq_iff l.id i).0 e in
        let old = subst (λ j. get j (insert l.id key m) ≡ some v) (sym s) k in
        inl (ground (arith, old, get-insert_self l.id key m), l, Memᴰ.head refl, s)
    | inr e ↦ inr (sym (get-insert_other i l.id key m e) ∙ k)
  ]
]

map_all_ids-keeps :
    (i : Str) (gs : Merged) (m : Ids)
    → is_some (get i m) ≡ true
    → is_some (get i (map_all_ids gs m)) ≡ true
unfolding map_all_ids
map_all_ids-keeps i [] m h = h
map_all_ids-keeps i ((key, g) ∷ gs) m h =
    map_all_ids-keeps i gs (map_ids key g m) (map_ids-keeps key i g m h)

-- A listener of a merged group has a new identifier.
pub map_all_ids_complete :
    (k : Str) (x : CompiledListener) (gs : Merged) (m : Ids)
    → IsIn k x gs
    → is_some (get x.id (map_all_ids gs m)) ≡ true
unfolding map_all_ids
map_all_ids_complete k x [] m h = elim h [ ]
map_all_ids_complete k x ((key, g) ∷ gs) m (inl (e, h)) =
    map_all_ids-keeps x.id gs (map_ids key g m) (map_ids-adds key x g m h)
map_all_ids_complete k x ((key, g) ∷ gs) m (inr h) = map_all_ids_complete k x gs (map_ids key g m) h

-- A new identifier is the key of a merged group with a listener of the old one.
pub map_all_ids_sound :
    (i v : Str) (gs : Merged) (m : Ids)
    → get i (map_all_ids gs m) ≡ some v
    → ((x : CompiledListener) × IsIn v x gs × (x.id ≡ i)) ⊎ (get i m ≡ some v)
unfolding map_all_ids
map_all_ids_sound i v [] m h = inr h
map_all_ids_sound i v ((key, g) ∷ gs) m h = elim (map_all_ids_sound i v gs (map_ids key g m) h) [
  | inl (x, n, s) ↦ inl (x, inr n, s)
  | inr k ↦ elim (map_ids_sound key i v g m k) [
    | inl (e, x, n, s) ↦ inl (x, inl (e, n), s)
    | inr o ↦ inr o
  ]
]
