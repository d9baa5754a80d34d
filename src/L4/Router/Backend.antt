-- ===== src/L4/Router/Backend.antt =====
-- The choice of a backend.
use mathlib.Core.List.{Memᴰ}
use mathlib.Core.Option.{some-injective}
use proxy.Common.{
  ℕ, ◌+◌, ◌<◌, ◌≡◌, refl, ◌⊎◌, inl, inr, false, Option, some, List, [], ◌∷◌, map, arith, length,
  get_elem?, zero, suc, ◌==◌, ==_iff, Bool-cases,
}
use proxy.Ir.{WeightedBackend}
use proxy.L4.Router.{sum_weights, pick_backend}

abbrev weights : List WeightedBackend → List ℕ
weights bs = map (λ (b : WeightedBackend). b.weight) bs

abbrev pub sum_of : List ℕ → ℕ
sum_of [] = 0
sum_of (w ∷ ws) = w + sum_of ws

sum_of-weights : (bs : List WeightedBackend) → sum_of (weights bs) ≡ sum_weights bs
sum_of-weights [] = refl
sum_of-weights (b ∷ bs) = omega (arith, sum_of-weights bs)

get_elem?-weights :
    (bs : List WeightedBackend) (i w : ℕ)
    → get_elem? (weights bs) i ≡ some w
    → (b : WeightedBackend) × Memᴰ b bs × (get_elem? bs i ≡ some b) × (b.weight ≡ w)
get_elem?-weights [] i w h = ground arith
get_elem?-weights (x ∷ xs) zero w h = (x, Memᴰ.head refl, refl, some-injective _ _ h)
get_elem?-weights (x ∷ xs) (suc i) w h =
    let (b, m, e, k) = get_elem?-weights xs i w h in (b, Memᴰ.tail m, e, k)

-- What `rand` documents of a weighted sample: there is one where some weight is not zero, and it is
-- the index of such a weight.
pub record IsWeightedSample (sample : List ℕ → Option ℕ) : Type 0 where
  pub drawn :
      (ws : List ℕ)
      → 0 < sum_of ws
      → (i w : ℕ) × (sample ws ≡ some i) × (get_elem? ws i ≡ some w) × (0 < w)

-- Whenever there is a backend, one of them is picked; it has a weight other than zero unless it is
-- the only backend or all weights are zero. The sampling is assumed to do what `rand` documents.
pub pick_backend_serves :
    (sample : List ℕ → Option ℕ) (x : WeightedBackend) (xs : List WeightedBackend)
    → IsWeightedSample sample
    → (b : WeightedBackend) × Memᴰ b (x ∷ xs)
      × (pick_backend sample (x ∷ xs) ≡ some b)
      × ((0 < b.weight) ⊎ ((length (x ∷ xs) ≡ 1) ⊎ (sum_weights (x ∷ xs) ≡ 0)))
unfolding pick_backend
pick_backend_serves sample x [] s = (x, Memᴰ.head refl, refl, inr (inl refl))
pick_backend_serves sample x (y ∷ ys) s =
    let two : (length (x ∷ y ∷ ys) == 1) ≡ false = ground arith in
    elim (Bool-cases (sum_weights (x ∷ y ∷ ys) == 0)) [
      | inl e ↦ (x, Memᴰ.head refl, rw (two, e) refl, inr (inr ((==_iff _ _).0 e)))
      | inr e ↦
          let bs = x ∷ y ∷ ys in
          let (i, w, si, gi, pos) = s.drawn (weights bs) (ground (arith, sum_of-weights bs, e)) in
          let (b, m, gb, ew) = get_elem?-weights bs i w gi in
          (b, m, rw (two, e, si) gb, inl (omega (arith, ew, pos)))
    ]
