-- ===== src/Common/Order.antt =====
-- `Ord::cmp` of texts, of optional ports and of pairs.
use Prim.Native.Nat.{ℕ, compare, Ordering}
use mathlib.Core.Path.{◌≡◌, refl}
use mathlib.Core.Logic.{◌⊎◌, inl, inr}
use mathlib.Core.Option.{Option, none, some}
use mathlib.Core.List.{[], ◌∷◌}
use native.Mathlib.Omega.{arith}
use proxy.Common.Text.{Str}

pub Ordering-cases : (o : Ordering) → (o ≡ Ordering.lt) ⊎ ((o ≡ Ordering.eq) ⊎ (o ≡ Ordering.gt))
Ordering-cases Ordering.lt = inl refl
Ordering-cases Ordering.eq = inr (inl refl)
Ordering-cases Ordering.gt = inr (inr refl)

-- `Ordering::then`.
abbrev pub then_cmp : Ordering → Ordering → Ordering
then_cmp Ordering.eq o = o
then_cmp Ordering.lt o = Ordering.lt
then_cmp Ordering.gt o = Ordering.gt

-- The order of `str`: that of the bytes.
unfoldable pub str_cmp : Str → Str → Ordering
str_cmp [] [] = Ordering.eq
str_cmp [] (b ∷ t) = Ordering.lt
str_cmp (a ∷ s) [] = Ordering.gt
str_cmp (a ∷ s) (b ∷ t) = then_cmp (compare a b) (str_cmp s t)

-- The order of `Option<u16>`.
unfoldable pub port_cmp : Option ℕ → Option ℕ → Ordering
port_cmp none none = Ordering.eq
port_cmp none (some b) = Ordering.lt
port_cmp (some a) none = Ordering.gt
port_cmp (some a) (some b) = compare a b

-- What a map asks of the order of its keys.
pub record IsOrder {ℓ} {K : Type ℓ} (cmp : K → K → Ordering) : Type ℓ where
  pub same : (a b : K) → cmp a b ≡ Ordering.eq → a ≡ b
  pub self : (a : K) → cmp a a ≡ Ordering.eq
  pub flip : (a b : K) → cmp a b ≡ Ordering.gt → cmp b a ≡ Ordering.lt
  pub trans : (a b c : K) → cmp a b ≡ Ordering.lt → cmp b c ≡ Ordering.lt → cmp a c ≡ Ordering.lt

str_cmp-same : (s t : Str) → str_cmp s t ≡ Ordering.eq → s ≡ t
unfolding str_cmp
str_cmp-same [] [] h = refl
str_cmp-same [] (b ∷ t) h = ground (arith, h)
str_cmp-same (a ∷ s) [] h = ground (arith, h)
str_cmp-same (a ∷ s) (b ∷ t) h = ground (arith, str_cmp-same s t)

str_cmp_self : (s : Str) → str_cmp s s ≡ Ordering.eq
unfolding str_cmp
str_cmp_self [] = refl
str_cmp_self (a ∷ s) = ground (arith, str_cmp_self s)

str_cmp-flip : (s t : Str) → str_cmp s t ≡ Ordering.gt → str_cmp t s ≡ Ordering.lt
unfolding str_cmp
str_cmp-flip [] [] h = ground arith
str_cmp-flip [] (b ∷ t) h = ground arith
str_cmp-flip (a ∷ s) [] h = refl
str_cmp-flip (a ∷ s) (b ∷ t) h = ground (arith, str_cmp-flip s t)

str_cmp_trans :
    (s t u : Str)
    → str_cmp s t ≡ Ordering.lt
    → str_cmp t u ≡ Ordering.lt
    → str_cmp s u ≡ Ordering.lt
unfolding str_cmp
str_cmp_trans [] [] u h k = ground arith
str_cmp_trans [] (b ∷ t) [] h k = ground arith
str_cmp_trans [] (b ∷ t) (c ∷ u) h k = refl
str_cmp_trans (a ∷ s) [] u h k = ground arith
str_cmp_trans (a ∷ s) (b ∷ t) [] h k = ground arith
str_cmp_trans (a ∷ s) (b ∷ t) (c ∷ u) h k = ground (arith, str_cmp_trans s t u)

pub str_cmp-IsOrder : IsOrder str_cmp
str_cmp-IsOrder = record {
  same = str_cmp-same;
  self = str_cmp_self;
  flip = str_cmp-flip;
  trans = str_cmp_trans;
}

port_cmp-same : (a b : Option ℕ) → port_cmp a b ≡ Ordering.eq → a ≡ b
unfolding port_cmp
port_cmp-same none none h = refl
port_cmp-same none (some b) h = ground arith
port_cmp-same (some a) none h = ground arith
port_cmp-same (some a) (some b) h = ground arith

port_cmp_self : (a : Option ℕ) → port_cmp a a ≡ Ordering.eq
unfolding port_cmp
port_cmp_self none = refl
port_cmp_self (some a) = ground arith

port_cmp-flip : (a b : Option ℕ) → port_cmp a b ≡ Ordering.gt → port_cmp b a ≡ Ordering.lt
unfolding port_cmp
port_cmp-flip none none h = ground arith
port_cmp-flip none (some b) h = ground arith
port_cmp-flip (some a) none h = refl
port_cmp-flip (some a) (some b) h = ground arith

port_cmp_trans :
    (a b c : Option ℕ)
    → port_cmp a b ≡ Ordering.lt
    → port_cmp b c ≡ Ordering.lt
    → port_cmp a c ≡ Ordering.lt
unfolding port_cmp
port_cmp_trans none none c h k = ground arith
port_cmp_trans none (some b) none h k = ground arith
port_cmp_trans none (some b) (some c) h k = refl
port_cmp_trans (some a) none c h k = ground arith
port_cmp_trans (some a) (some b) none h k = ground arith
port_cmp_trans (some a) (some b) (some c) h k = ground arith

pub port_cmp-IsOrder : IsOrder port_cmp
port_cmp-IsOrder = record {
  same = port_cmp-same;
  self = port_cmp_self;
  flip = port_cmp-flip;
  trans = port_cmp_trans;
}

-- The order of a triple.
module _ {ℓ κ μ} {A : Type ℓ} {B : Type κ} {C : Type μ} (f : A → A → Ordering)
    (g : B → B → Ordering) (h : C → C → Ordering) where
  unfoldable pub triple_cmp : A × B × C → A × B × C → Ordering
  triple_cmp (a, b, c) (x, y, z) = then_cmp (f a x) (then_cmp (g b y) (h c z))

  pub triple_cmp-IsOrder : IsOrder f → IsOrder g → IsOrder h → IsOrder triple_cmp
  unfolding triple_cmp
  triple_cmp-IsOrder p q r = record {
    same = λ x y e. ground (arith, p.same x.0 y.0, q.same x.1 y.1, r.same x.2 y.2);
    self = λ x. ground (arith, p.self x.0, q.self x.1, r.self x.2);
    flip = λ x y e. ground (
      arith,
      p.same x.0 y.0,
      p.self x.0,
      p.flip x.0 y.0,
      q.same x.1 y.1,
      q.self x.1,
      q.flip x.1 y.1,
      r.flip x.2 y.2,
    );
    trans = λ x y z d e. ground (
      arith,
      p.same x.0 y.0,
      p.same y.0 z.0,
      p.self x.0,
      p.trans x.0 y.0 z.0,
      q.same x.1 y.1,
      q.same y.1 z.1,
      q.self x.1,
      q.trans x.1 y.1 z.1,
      r.trans x.2 y.2 z.2,
    );
  }
