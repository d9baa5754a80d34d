-- ===== src/Proxy/Weighted.antt =====
-- src/proxy/match_.rs: the choice of a backend by a counter that goes round.
mod Examples
use proxy.Common.{
  ℕ, zero, suc, ◌+◌, ◌-◌, ◌*◌, ◌%◌, ◌≤◌, ◌<◌, ◌≡◌, ◌≢◌, ◌↔◌, refl, sym, ap, ◌∙◌, inl, inr, Bool,
  true, false, Option, none, some, List, [], ◌∷◌, if◌then◌else◌, ltb, ◌==◌, ==_iff, get_elem?,
  Bool-cases, arith,
}
use native.Mathlib.Nat.{zero-add}
use proxy.Ir.{WeightedBackend}

abbrev pub u64_mod : ℕ
u64_mod = 18446744073709551616

-- `backends.iter().map(|b| b.weight as u64).sum()`.
unfoldable pub sum_weights : List WeightedBackend → ℕ
sum_weights [] = 0
sum_weights (b ∷ bs) = b.weight + sum_weights bs

-- The loop over the backends, with its cursor and index.
unfoldable pub scan : ℕ → ℕ → ℕ → List WeightedBackend → Option ℕ
scan pick cursor i [] = some 0
scan pick cursor i (b ∷ bs) =
    let rest = scan pick (cursor + b.weight) (suc i) bs in
    if ltb pick (cursor + b.weight) then some i else rest

-- By the counter, and with the counter after the call.
abbrev pub pick_by_counter : ℕ → List WeightedBackend → Option ℕ × ℕ
pick_by_counter counter backends =
    if sum_weights backends == 0
    then (some 0, counter)
    else (scan (counter % sum_weights backends) 0 0 backends, (counter + 1) % u64_mod)

unfoldable pub pick_weighted_backend_ir_index : ℕ → List WeightedBackend → Option ℕ × ℕ
unfolding sum_weights scan
pick_weighted_backend_ir_index counter [] = (none, counter)
pick_weighted_backend_ir_index counter (b ∷ bs) = pick_by_counter counter (b ∷ bs)

-- The weight of the backends before an index.
pub weight_before : ℕ → List WeightedBackend → ℕ
weight_before zero bs = 0
weight_before (suc i) [] = 0
weight_before (suc i) (b ∷ bs) = b.weight + weight_before i bs

-- The weight of the backend at an index, zero where there is none.
pub weight_at : ℕ → List WeightedBackend → ℕ
weight_at i [] = 0
weight_at zero (b ∷ bs) = b.weight
weight_at (suc i) (b ∷ bs) = weight_at i bs

scan-ge :
    (pick cursor i k : ℕ) (bs : List WeightedBackend)
    → cursor ≤ pick
    → pick < cursor + sum_weights bs
    → scan pick cursor i bs ≡ some k
    → i ≤ k
unfolding scan sum_weights
scan-ge pick cursor i k [] lo hi e = absurd (omega arith)
scan-ge pick cursor i k (b ∷ bs) lo hi e = elim (Bool-cases (ltb pick (cursor + b.weight))) [
  | inl t ↦ ground (arith, t)
  | inr f ↦
      let later : scan pick (cursor + b.weight) (suc i) bs ≡ some k = rw f at e in
      omega (
        arith,
        scan-ge pick (cursor + b.weight) (suc i) k bs (ground (arith, f)) (ground (arith, hi))
            later,
      )
]

-- The scan gives the backend whose share of the total holds the pick.
scan-index :
    (pick cursor i j : ℕ) (bs : List WeightedBackend)
    → cursor ≤ pick
    → pick < cursor + sum_weights bs
    → (scan pick cursor i bs ≡ some (i + j)) ↔ (
        (cursor + weight_before j bs ≤ pick)
        × (pick < cursor + weight_before j bs + weight_at j bs))
unfolding scan sum_weights weight_before weight_at
scan-index pick cursor i j [] lo hi = absurd (omega arith)
scan-index pick cursor i zero (b ∷ bs) lo hi = elim (Bool-cases (ltb pick (cursor + b.weight))) [
  | inl t ↦ rw t (ground (arith, t))
  | inr f ↦ rw f (
    (λ e. absurd (
        omega (
          arith,
          scan-ge pick (cursor + b.weight) (suc i) (i + 0) bs (ground (arith, f))
              (ground (arith, hi)) e,
        ))),
    (λ h. absurd (ground (arith, f, h))),
  )
]
scan-index pick cursor i (suc j) (b ∷ bs) lo hi = elim (Bool-cases (ltb pick (cursor + b.weight))) [
  | inl t ↦ rw t (ground (arith, t))
  | inr f ↦ rw f (
      ground (
        arith,
        scan-index pick (cursor + b.weight) (suc i) j bs (ground (arith, f)) (ground (arith, hi)),
      ))
]

scan_from_start :
    (pick j : ℕ) (bs : List WeightedBackend)
    → pick < sum_weights bs
    → (scan pick 0 0 bs ≡ some j)
      ↔ ((weight_before j bs ≤ pick) × (pick < weight_before j bs + weight_at j bs))
scan_from_start pick j bs h =
    ground (arith, scan-index pick 0 0 j bs (omega arith) (omega (arith, h)))

-- Where the weights do not add up to zero, a backend is chosen exactly when the counter, modulo the
-- sum of the weights, lies in its own share of the sum, which is as long as its weight and follows
-- the shares of the backends before it.
pub pick_weighted_shares :
    (counter j : ℕ) (backends : List WeightedBackend)
    → sum_weights backends ≢ 0
    → ((pick_weighted_backend_ir_index counter backends).0 ≡ some j) ↔ (
        (weight_before j backends ≤ counter % sum_weights backends)
        × (counter % sum_weights backends < weight_before j backends + weight_at j backends))
unfolding pick_weighted_backend_ir_index
pick_weighted_shares counter j [] ne = absurd (ne (unfold sum_weights in refl))
pick_weighted_shares counter j (b ∷ bs) ne =
    let total = sum_weights (b ∷ bs) in
    elim (Bool-cases (total == 0)) [
      | inl t ↦ absurd (ne ((==_iff total 0).0 t))
      | inr f ↦ rw f (scan_from_start (counter % total) j (b ∷ bs) (omega (arith, ne)))
    ]
