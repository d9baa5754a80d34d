-- ===== src/Common/Lists.antt =====
-- Lists measured and searched by native numbers and Boolean tests, and predicates on lists.
use Prim.Native.Nat.{ℕ, zero, suc, ◌+◌}
use mathlib.Core.Path.{◌≡◌, refl, sym, subst}
use mathlib.Core.Logic.{◌⊎◌, inl, inr}
use mathlib.Core.Bool.{Bool, true, false, ◌&&◌, ◌||◌}
use mathlib.Core.List.{List, [], ◌∷◌, ◌++◌, Memᴰ}
use mathlib.Core.List.Memᴰ
use mathlib.Core.Option.{Option, none, some}
use native.Mathlib.Omega.{arith}
use proxy.Common.Tests.{if◌then◌else◌, Bool-cases}

module _ {ℓ} {A : Type ℓ} where
  abbrev pub length : List A → ℕ
  length [] = 0
  length (x ∷ xs) = suc (length xs)

  abbrev pub get_elem? : List A → ℕ → Option A
  get_elem? [] i = none
  get_elem? (x ∷ xs) zero = some x
  get_elem? (x ∷ xs) (suc i) = get_elem? xs i

  abbrev pub take : ℕ → List A → List A
  take zero xs = []
  take (suc n) [] = []
  take (suc n) (x ∷ xs) = x ∷ take n xs

  abbrev pub drop : ℕ → List A → List A
  drop zero xs = xs
  drop (suc n) [] = []
  drop (suc n) (x ∷ xs) = drop n xs

  abbrev pub any : (A → Bool) → List A → Bool
  any p [] = false
  any p (x ∷ xs) = p x || any p xs

  abbrev pub all : (A → Bool) → List A → Bool
  all p [] = true
  all p (x ∷ xs) = p x && all p xs

  -- `Iterator::find`: the first element that passes.
  abbrev pub find : (A → Bool) → List A → Option A
  find p [] = none
  find p (x ∷ xs) = if p x then some x else find p xs

  -- `Iterator::filter` and `Vec::retain`.
  abbrev pub filter : (A → Bool) → List A → List A
  filter p [] = []
  filter p (x ∷ xs) = let rest = filter p xs in if p x then x ∷ rest else rest

  pub length-append : (xs ys : List A) → length (xs ++ ys) ≡ length xs + length ys
  length-append [] ys = omega arith
  length-append (x ∷ xs) ys = omega (arith, length-append xs ys)

  pub Memᴰ-append_left : {a : A} (xs ys : List A) → Memᴰ a xs → Memᴰ a (xs ++ ys)
  Memᴰ-append_left [] ys h = elim h [ ]
  Memᴰ-append_left (x ∷ xs) ys (Memᴰ.head e) = Memᴰ.head e
  Memᴰ-append_left (x ∷ xs) ys (Memᴰ.tail h) = Memᴰ.tail (Memᴰ-append_left xs ys h)

  pub Memᴰ-append_right : {a : A} (xs ys : List A) → Memᴰ a ys → Memᴰ a (xs ++ ys)
  Memᴰ-append_right [] ys h = h
  Memᴰ-append_right (x ∷ xs) ys h = Memᴰ.tail (Memᴰ-append_right xs ys h)

  pub Memᴰ-append : {a : A} (xs ys : List A) → Memᴰ a (xs ++ ys) → Memᴰ a xs ⊎ Memᴰ a ys
  Memᴰ-append [] ys h = inr h
  Memᴰ-append (x ∷ xs) ys (Memᴰ.head e) = inl (Memᴰ.head e)
  Memᴰ-append (x ∷ xs) ys (Memᴰ.tail h) = elim (Memᴰ-append xs ys h) [
    | inl k ↦ inl (Memᴰ.tail k)
    | inr k ↦ inr k
  ]

  pub find_sound :
      (p : A → Bool) (xs : List A) (a : A) → find p xs ≡ some a → Memᴰ a xs × (p a ≡ true)
  find_sound p [] a h = ground arith
  find_sound p (x ∷ xs) a h = elim (Bool-cases (p x)) [
    | inl e ↦ let s : x ≡ a = ground arith in (Memᴰ.head (sym s), subst (λ y. p y ≡ true) s e)
    | inr e ↦ let (m, q) = find_sound p xs a (ground arith) in (Memᴰ.tail m, q)
  ]

  pub find-none : (p : A → Bool) (xs : List A) (a : A) → find p xs ≡ none → Memᴰ a xs → p a ≡ false
  find-none p [] a h m = elim m [ ]
  find-none p (x ∷ xs) a h (Memᴰ.head s) = elim (Bool-cases (p x)) [
    | inl e ↦ absurd (ground arith)
    | inr e ↦ subst (λ y. p y ≡ false) (sym s) e
  ]
  find-none p (x ∷ xs) a h (Memᴰ.tail k) = find-none p xs a (ground arith) k

  pub any_sound :
      (p : A → Bool) (xs : List A) → any p xs ≡ true → (a : A) × Memᴰ a xs × (p a ≡ true)
  any_sound p [] h = ground arith
  any_sound p (x ∷ xs) h = elim (Bool-cases (p x)) [
    | inl e ↦ (x, Memᴰ.head refl, e)
    | inr e ↦ let (a, m, q) = any_sound p xs (ground arith) in (a, Memᴰ.tail m, q)
  ]

  pub any_complete : (p : A → Bool) (xs : List A) (a : A) → Memᴰ a xs → p a ≡ true → any p xs ≡ true
  any_complete p [] a m h = elim m [ ]
  any_complete p (x ∷ xs) a (Memᴰ.head e) h = ground (arith, subst (λ y. p y ≡ true) e h)
  any_complete p (x ∷ xs) a (Memᴰ.tail m) h = ground (arith, any_complete p xs a m h)

  pub filter_sound :
      (p : A → Bool) (xs : List A) {a : A} → Memᴰ a (filter p xs) → Memᴰ a xs × (p a ≡ true)
  filter_sound p [] h = elim h [ ]
  filter_sound p (x ∷ xs) {a} h = elim (Bool-cases (p x)) [
    | inl e ↦ elim (Memᴰ.cases_cons (rw e at h)) [
      | inl s ↦ (Memᴰ.head s, subst (λ y. p y ≡ true) (sym s) e)
      | inr k ↦ let (m, q) = filter_sound p xs k in (Memᴰ.tail m, q)
    ]
    | inr e ↦ let (m, q) = filter_sound p xs (rw e at h) in (Memᴰ.tail m, q)
  ]

  pub filter_complete :
      (p : A → Bool) (xs : List A) {a : A} → Memᴰ a xs → p a ≡ true → Memᴰ a (filter p xs)
  filter_complete p [] h q = elim h [ ]
  filter_complete p (x ∷ xs) {a} (Memᴰ.head e) q =
      let px : p x ≡ true = subst (λ y. p y ≡ true) e q in rw px (Memᴰ.head e)
  filter_complete p (x ∷ xs) {a} (Memᴰ.tail h) q = elim (Bool-cases (p x)) [
    | inl e ↦ rw e (Memᴰ.tail (filter_complete p xs h q))
    | inr e ↦ rw e (filter_complete p xs h q)
  ]

pub Memᴰ-if {ℓ} :
    {A : Type ℓ} {a : A} (b : Bool) (xs ys : List A)
    → Memᴰ a (if b then xs else ys)
    → ((b ≡ true) × Memᴰ a xs) ⊎ ((b ≡ false) × Memᴰ a ys)
Memᴰ-if true xs ys m = inl (refl, m)
Memᴰ-if false xs ys m = inr (refl, m)

pub if-Memᴰ {ℓ} :
    {A : Type ℓ} {a : A} (b : Bool) (xs ys : List A)
    → b ≡ true
    → Memᴰ a xs
    → Memᴰ a (if b then xs else ys)
if-Memᴰ true xs ys e m = m
if-Memᴰ false xs ys e m = absurd (ground arith)

module _ {ℓ κ} {A : Type ℓ} (P : A → Type κ) where
  abbrev pub All : List A → Type κ
  All [] = Unit
  All (x ∷ xs) = P x × All xs

  pub All-Memᴰ : (xs : List A) {a : A} → All xs → Memᴰ a xs → P a
  All-Memᴰ [] h m = elim m [ ]
  All-Memᴰ (x ∷ xs) h (Memᴰ.head e) = subst P (sym e) h.0
  All-Memᴰ (x ∷ xs) h (Memᴰ.tail m) = All-Memᴰ xs h.1 m

  pub All-of : (xs : List A) → ((a : A) → Memᴰ a xs → P a) → All xs
  All-of [] f = tt
  All-of (x ∷ xs) f = (f x (Memᴰ.head refl), All-of xs (λ a m. f a (Memᴰ.tail m)))
