-- ===== src/Common/Maps.antt =====
-- `Iterator::filter_map`, `flat_map` and `map`, and the elements of their results.
use Prim.Native.Nat.{ℕ, ◌≤◌, max}
use mathlib.Core.Path.{◌≡◌, refl, sym, ap, ◌∙◌, subst}
use mathlib.Core.Logic.{inl, inr}
use mathlib.Core.List.{List, [], ◌∷◌, ◌++◌, map, Memᴰ}
use mathlib.Core.List.Memᴰ
use mathlib.Core.Option.{Option, none, some}
use native.Mathlib.Omega.{arith}
use proxy.Common.Tests.{Bool-cases, Option-cases, leb}
use proxy.Common.Lists.{Memᴰ-append, Memᴰ-append_left, Memᴰ-append_right}

abbrev pub cons_option {ℓ} : {A : Type ℓ} → Option A → List A → List A
cons_option none xs = xs
cons_option (some x) xs = x ∷ xs

-- `Iterator::filter_map`, `flat_map`, and `.map(f).max().unwrap_or(0)`.
module _ {ℓ κ} {A : Type ℓ} {B : Type κ} where
  abbrev pub filter_map : (A → Option B) → List A → List B
  filter_map f [] = []
  filter_map f (x ∷ xs) = let rest = filter_map f xs in cons_option (f x) rest

  abbrev pub flat_map : (A → List B) → List A → List B
  flat_map f [] = []
  flat_map f (x ∷ xs) = f x ++ flat_map f xs

  pub flat_map_sound :
      (f : A → List B) (xs : List A) {b : B}
      → Memᴰ b (flat_map f xs)
      → (a : A) × Memᴰ a xs × Memᴰ b (f a)
  flat_map_sound f [] h = elim h [ ]
  flat_map_sound f (x ∷ xs) h = elim (Memᴰ-append (f x) (flat_map f xs) h) [
    | inl k ↦ (x, Memᴰ.head refl, k)
    | inr k ↦ let (a, m, q) = flat_map_sound f xs k in (a, Memᴰ.tail m, q)
  ]

  pub flat_map_complete :
      (f : A → List B) (xs : List A) {a : A} {b : B}
      → Memᴰ a xs
      → Memᴰ b (f a)
      → Memᴰ b (flat_map f xs)
  flat_map_complete f [] h k = elim h [ ]
  flat_map_complete f (x ∷ xs) {a} {b} (Memᴰ.head e) k =
      Memᴰ-append_left (f x) _ (subst (λ y. Memᴰ b (f y)) e k)
  flat_map_complete f (x ∷ xs) (Memᴰ.tail h) k =
      Memᴰ-append_right (f x) _ (flat_map_complete f xs h k)

pub map_sound {ℓ κ} :
    {A : Type ℓ} {B : Type κ} (f : A → B) (xs : List A) {b : B}
    → Memᴰ b (map f xs)
    → (a : A) × Memᴰ a xs × (b ≡ f a)
map_sound f [] m = elim m [ ]
map_sound f (x ∷ xs) (Memᴰ.head e) = (x, Memᴰ.head refl, e)
map_sound f (x ∷ xs) (Memᴰ.tail m) = let (a, k, e) = map_sound f xs m in (a, Memᴰ.tail k, e)

pub map_complete {ℓ κ} :
    {A : Type ℓ} {B : Type κ} (f : A → B) (xs : List A) {a : A} → Memᴰ a xs → Memᴰ (f a) (map f xs)
map_complete f [] m = elim m [ ]
map_complete f (x ∷ xs) (Memᴰ.head e) = Memᴰ.head (ap f e)
map_complete f (x ∷ xs) (Memᴰ.tail m) = Memᴰ.tail (map_complete f xs m)

pub singleton_sound {ℓ} : {A : Type ℓ} {a b : A} → Memᴰ a (b ∷ []) → a ≡ b
singleton_sound m = elim (Memᴰ.cases_cons m) [ inl e ↦ e | inr k ↦ elim k [ ] ]

pub filter_map_sound {ℓ κ} :
    {A : Type ℓ} {B : Type κ} (f : A → Option B) (xs : List A) {b : B}
    → Memᴰ b (filter_map f xs)
    → (a : A) × Memᴰ a xs × (f a ≡ some b)
filter_map_sound f [] h = elim h [ ]
filter_map_sound f (x ∷ xs) {b} h = elim (Option-cases (f x)) [
  | inl e ↦ let (a, m, q) = filter_map_sound f xs (rw e at h) in (a, Memᴰ.tail m, q)
  | inr (c, e) ↦ elim (Memᴰ.cases_cons (rw e at h)) [
    | inl s ↦ (x, Memᴰ.head refl, e ∙ ap (λ y. some y) (sym s))
    | inr k ↦ let (a, m, q) = filter_map_sound f xs k in (a, Memᴰ.tail m, q)
  ]
]

pub filter_map_complete {ℓ κ} :
    {A : Type ℓ} {B : Type κ} (f : A → Option B) (xs : List A) {a : A} {b : B}
    → Memᴰ a xs
    → f a ≡ some b
    → Memᴰ b (filter_map f xs)
filter_map_complete f [] m e = elim m [ ]
filter_map_complete f (x ∷ xs) (Memᴰ.head s) e = let k = ap f (sym s) ∙ e in rw k (Memᴰ.head refl)
filter_map_complete f (x ∷ xs) (Memᴰ.tail m) e = elim (Option-cases (f x)) [
  | inl k ↦ rw k (filter_map_complete f xs m e)
  | inr (c, k) ↦ rw k (Memᴰ.tail (filter_map_complete f xs m e))
]

abbrev pub max_of {ℓ} : {A : Type ℓ} → (A → ℕ) → List A → ℕ
max_of f [] = 0
max_of f (x ∷ xs) = max (f x) (max_of f xs)

pub max_of-le {ℓ} : {A : Type ℓ} (f : A → ℕ) (xs : List A) {a : A} → Memᴰ a xs → f a ≤ max_of f xs
max_of-le f [] h = elim h [ ]
max_of-le f (x ∷ xs) (Memᴰ.head e) = rw (ap f e) (omega arith)
max_of-le f (x ∷ xs) (Memᴰ.tail h) = omega (arith, max_of-le f xs h)

pub max_of-reached {ℓ} :
    {A : Type ℓ} (f : A → ℕ) (x : A) (xs : List A)
    → (a : A) × Memᴰ a (x ∷ xs) × (f a ≡ max_of f (x ∷ xs))
max_of-reached f x [] = (x, Memᴰ.head refl, omega arith)
max_of-reached f x (y ∷ xs) =
    let (b, m, e) = max_of-reached f y xs in
    elim (Bool-cases (leb (max_of f (y ∷ xs)) (f x))) [
      | inl h ↦ (x, Memᴰ.head refl, ground arith)
      | inr h ↦ (b, Memᴰ.tail m, ground arith)
    ]
