-- ===== src/Common/BTreeMap.antt =====
-- `BTreeMap<K, V>` as an association list in the order of its keys.
use Prim.Native.Nat.{Ordering}
use mathlib.Core.List.{Memᴰ}
use mathlib.Core.List.Memᴰ
use mathlib.Core.Path.{◌≡◌, refl, ap, sym}
use mathlib.Core.Logic.{◌⊎◌, inl, inr}
use mathlib.Core.Bool.{Bool, true, false}
use proxy.Common.Tests.{if◌then◌else◌, Bool-cases}
use mathlib.Core.Option.{Option, none, some}
use mathlib.Core.List.{List, [], ◌∷◌}
use native.Mathlib.Omega.{arith}
use proxy.Common.Lists.{All}
use proxy.Common.Order.{Ordering-cases, IsOrder}

abbrev pub is_eq : Ordering → Bool
is_eq Ordering.eq = true
is_eq Ordering.lt = false
is_eq Ordering.gt = false

-- Before the first entry, in its place, or after it.
abbrev pub placed {ℓ} : {A : Type ℓ} → Ordering → A → A → A → List A → List A → List A
placed Ordering.lt new old changed m rest = new ∷ old ∷ m
placed Ordering.eq new old changed m rest = changed ∷ m
placed Ordering.gt new old changed m rest = old ∷ rest

module _ {ℓ κ} {K : Type ℓ} {V : Type κ} (cmp : K → K → Ordering) where
  unfoldable pub get : K → List (K × V) → Option V
  get k [] = none
  get k ((j, v) ∷ m) = if is_eq (cmp k j) then some v else get k m

  -- `BTreeMap::entry`: `f` of the value at the key, or of `none`, becomes the value.
  unfoldable pub upsert : K → (Option V → V) → List (K × V) → List (K × V)
  upsert k f [] = (k, f none) ∷ []
  upsert k f ((j, v) ∷ m) = placed (cmp k j) (k, f none) (j, v) (j, f (some v)) m (upsert k f m)

  abbrev pub IsOrdered : List (K × V) → Type 0
  IsOrdered [] = Unit
  IsOrdered ((j, v) ∷ m) = All (λ e. cmp j e.0 ≡ Ordering.lt) m × IsOrdered m

  upsert-All :
      (P : K → Type 0) (k : K) (f : Option V → V) (m : List (K × V))
      → P k
      → All (λ e. P e.0) m
      → All (λ e. P e.0) (upsert k f m)
  unfolding upsert
  upsert-All P k f [] p a = (p, tt)
  upsert-All P k f ((j, v) ∷ m) p a = elim (Ordering-cases (cmp k j)) [
    | inl e ↦ rw e (p, a)
    | inr (inl e) ↦ rw e a
    | inr (inr e) ↦ rw e (a.0, upsert-All P k f m p a.1)
  ]

  pub get-mem :
      (k : K) (m : List (K × V)) {v : V}
      → get k m ≡ some v
      → (j : K) × (is_eq (cmp k j) ≡ true) × Memᴰ (j, v) m
  unfolding get
  get-mem k [] h = ground (arith, h)
  get-mem k ((j, w) ∷ m) {v} h = elim (Bool-cases (is_eq (cmp k j))) [
    | inl e ↦ let s : w ≡ v = ground (arith, e, h) in (j, e, Memᴰ.head (ap (λ u. (j, u)) (sym s)))
    | inr e ↦ let (i, q, r) = get-mem k m (rw e at h) in (i, q, Memᴰ.tail r)
  ]

  -- Where an entry of an updated map comes from: it is an old one, a new one, or a changed one.
  pub upsert-mem :
      (k : K) (f : Option V → V) (m : List (K × V)) {e : K × V}
      → Memᴰ e (upsert k f m)
      → Memᴰ e m
        ⊎ ((e ≡ (k, f none))
            ⊎ ((j : K) × (v : V) × (cmp k j ≡ Ordering.eq) × Memᴰ (j, v) m × (e ≡ (j, f (some v)))))
  unfolding upsert
  upsert-mem k f [] h = elim (Memᴰ.cases_cons h) [ inl s ↦ inr (inl s) | inr n ↦ elim n [ ] ]
  upsert-mem k f ((j, v) ∷ m) {e} h = elim (Ordering-cases (cmp k j)) [
    | inl c ↦ elim (Memᴰ.cases_cons (rw c at h)) [ inl s ↦ inr (inl s) | inr n ↦ inl n ]
    | inr (inl c) ↦ elim (Memᴰ.cases_cons (rw c at h)) [
      | inl s ↦ inr (inr (j, v, c, Memᴰ.head refl, s))
      | inr n ↦ inl (Memᴰ.tail n)
    ]
    | inr (inr c) ↦ elim (Memᴰ.cases_cons (rw c at h)) [
      | inl s ↦ inl (Memᴰ.head s)
      | inr n ↦ elim (upsert-mem k f m n) [
        | inl q ↦ inl (Memᴰ.tail q)
        | inr (inl q) ↦ inr (inl q)
        | inr (inr (i, w, d, q, r)) ↦ inr (inr (i, w, d, Memᴰ.tail q, r))
      ]
    ]
  ]

  module _ (o : IsOrder cmp) where
    above :
        (k j : K) (m : List (K × V))
        → cmp k j ≡ Ordering.lt
        → All (λ e. cmp j e.0 ≡ Ordering.lt) m
        → All (λ e. cmp k e.0 ≡ Ordering.lt) m
    above k j [] h a = tt
    above k j ((i, v) ∷ m) h a = (o.trans k j i h a.0, above k j m h a.1)

    get-below : (k : K) (m : List (K × V)) → All (λ e. cmp k e.0 ≡ Ordering.lt) m → get k m ≡ none
    unfolding get
    get-below k [] a = refl
    get-below k ((i, v) ∷ m) a = rw a.0 (get-below k m a.1)

    pub upsert-IsOrdered :
        (k : K) (f : Option V → V) (m : List (K × V)) → IsOrdered m → IsOrdered (upsert k f m)
    unfolding upsert
    upsert-IsOrdered k f [] s = (tt, tt)
    upsert-IsOrdered k f ((j, v) ∷ m) s = elim (Ordering-cases (cmp k j)) [
      | inl e ↦ rw e ((e, above k j m e s.0), s)
      | inr (inl e) ↦ rw e s
      | inr (inr e) ↦ rw e (
        upsert-All (λ i. cmp j i ≡ Ordering.lt) k f m (o.flip k j e) s.0,
        upsert-IsOrdered k f m s.1,
      )
    ]

    -- A lookup after an update: the new value at the key, and the old one elsewhere.
    pub get-upsert_self :
        (k : K) (f : Option V → V) (m : List (K × V))
        → IsOrdered m
        → get k (upsert k f m) ≡ some (f (get k m))
    unfolding get upsert
    get-upsert_self k f [] s = rw (o.self k) refl
    get-upsert_self k f ((j, v) ∷ m) s = elim (Ordering-cases (cmp k j)) [
      | inl e ↦ rw (e, o.self k, get-below k m (above k j m e s.0)) refl
      | inr (inl e) ↦ rw (e, e) refl
      | inr (inr e) ↦ rw (e, e) (get-upsert_self k f m s.1)
    ]

    pub get-upsert_other :
        (i k : K) (f : Option V → V) (m : List (K × V))
        → is_eq (cmp i k) ≡ false
        → get i (upsert k f m) ≡ get i m
    unfolding get upsert
    get-upsert_other i k f [] n = ground (arith, n)
    get-upsert_other i k f ((j, v) ∷ m) n = elim (Ordering-cases (cmp k j)) [
      | inl e ↦ rw e (ground (arith, n))
      | inr (inl e) ↦ rw e (ground (arith, n, ap (λ x. cmp i x) (o.same k j e)))
      | inr (inr e) ↦ rw e (ground (arith, get-upsert_other i k f m n))
    ]
