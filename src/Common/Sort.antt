-- ===== src/Common/Sort.antt =====
-- `slice::sort_by`, a stable sort, as insertion from the right. `gt a b` says that the comparison
-- of a with b is `Ordering::Greater`.
use mathlib.Core.List.{Memᴰ}
use mathlib.Core.List.Memᴰ
use mathlib.Core.Path.{subst}
use proxy.Common.{
  ◌≡◌, sym, Bool, true, false, some, List, [], ◌∷◌, arith, if◌then◌else◌, Bool-cases, ◌⊎◌, inl, inr,
  All, All-Memᴰ, All-of, find,
}

module _ {ℓ} {A : Type ℓ} (gt : A → A → Bool) where
  unfoldable pub insert : A → List A → List A
  insert x [] = x ∷ []
  insert x (y ∷ ys) = if gt x y then y ∷ insert x ys else x ∷ y ∷ ys

  unfoldable pub sort_by : List A → List A
  unfolding insert
  sort_by [] = []
  sort_by (x ∷ xs) = insert x (sort_by xs)

  -- What `sort_by` asks of a comparison.
  pub record IsTotalOrder : Type ℓ where
    pub asym : (a b : A) → gt a b ≡ true → gt b a ≡ false
    pub trans : (a b c : A) → gt a b ≡ false → gt b c ≡ false → gt a c ≡ false

  abbrev pub IsSorted : List A → Type ℓ
  IsSorted [] = Unit
  IsSorted (x ∷ xs) = All (λ y. gt x y ≡ false) xs × IsSorted xs

  mem-insert : {a x : A} (xs : List A) → Memᴰ a (insert x xs) → (a ≡ x) ⊎ Memᴰ a xs
  unfolding insert
  mem-insert [] h = Memᴰ.cases_cons h
  mem-insert {a} {x} (y ∷ ys) h = elim (Bool-cases (gt x y)) [
    | inl e ↦ elim (Memᴰ.cases_cons (rw e at h)) [
      | inl s ↦ inr (Memᴰ.head s)
      | inr k ↦ elim (mem-insert ys k) [ inl s ↦ inl s | inr m ↦ inr (Memᴰ.tail m) ]
    ]
    | inr e ↦ Memᴰ.cases_cons (rw e at h)
  ]

  insert-mem : {a x : A} (xs : List A) → (a ≡ x) ⊎ Memᴰ a xs → Memᴰ a (insert x xs)
  unfolding insert
  insert-mem [] (inl e) = Memᴰ.head e
  insert-mem [] (inr h) = elim h [ ]
  insert-mem {a} {x} (y ∷ ys) h = elim (Bool-cases (gt x y)) [
    | inl e ↦ rw e (elim h [
      | inl s ↦ Memᴰ.tail (insert-mem ys (inl s))
      | inr m ↦ elim (Memᴰ.cases_cons m) [
        | inl s ↦ Memᴰ.head s
        | inr k ↦ Memᴰ.tail (insert-mem ys (inr k))
      ]
    ])
    | inr e ↦ rw e (elim h [ inl s ↦ Memᴰ.head s | inr m ↦ Memᴰ.tail m ])
  ]

  -- Sorting keeps the elements.
  pub mem-sort_by : {a : A} (xs : List A) → Memᴰ a (sort_by xs) → Memᴰ a xs
  unfolding sort_by
  mem-sort_by [] h = h
  mem-sort_by (x ∷ xs) h = elim (mem-insert (sort_by xs) h) [
    | inl e ↦ Memᴰ.head e
    | inr m ↦ Memᴰ.tail (mem-sort_by xs m)
  ]

  pub sort_by-mem : {a : A} (xs : List A) → Memᴰ a xs → Memᴰ a (sort_by xs)
  unfolding sort_by
  sort_by-mem [] h = h
  sort_by-mem (x ∷ xs) (Memᴰ.head e) = insert-mem (sort_by xs) (inl e)
  sort_by-mem (x ∷ xs) (Memᴰ.tail m) = insert-mem (sort_by xs) (inr (sort_by-mem xs m))

  module _ (o : IsTotalOrder) where
    insert-IsSorted : (x : A) (xs : List A) → IsSorted xs → IsSorted (insert x xs)
    unfolding insert
    insert-IsSorted x [] h = (tt, tt)
    insert-IsSorted x (y ∷ ys) (below, s) = elim (Bool-cases (gt x y)) [
      | inl e ↦ rw e (
        All-of (λ z. gt y z ≡ false) (insert x ys)
            (λ z m. elim (mem-insert ys m) [
              | inl q ↦ subst (λ w. gt y w ≡ false) (sym q) (o.asym x y e)
              | inr k ↦ All-Memᴰ (λ z. gt y z ≡ false) ys below k
            ]),
        insert-IsSorted x ys s,
      )
      | inr e ↦ rw e (
        (
          e,
          All-of (λ z. gt x z ≡ false) ys
              (λ z m. o.trans x y z e (All-Memᴰ (λ z. gt y z ≡ false) ys below m)),
        ),
        (below, s),
      )
    ]

    pub sort_by-IsSorted : (xs : List A) → IsSorted (sort_by xs)
    unfolding sort_by
    sort_by-IsSorted [] = tt
    sort_by-IsSorted (x ∷ xs) = insert-IsSorted x (sort_by xs) (sort_by-IsSorted xs)

    gt_irrefl : (a : A) → gt a a ≡ false
    gt_irrefl a = elim (Bool-cases (gt a a)) [ inl e ↦ o.asym a a e | inr e ↦ e ]

    -- The first element of a sorted list that passes comes after none that passes.
    pub find-best :
        (p : A → Bool) (xs : List A) {a b : A}
        → IsSorted xs
        → find p xs ≡ some a
        → Memᴰ b xs
        → p b ≡ true
        → gt a b ≡ false
    find-best p [] s h m q = elim m [ ]
    find-best p (x ∷ xs) {a} {b} (below, s) h m q = elim (Bool-cases (p x)) [
      | inl e ↦
          let same : x ≡ a = ground arith in
          subst (λ w. gt w b ≡ false) same
            (elim (Memᴰ.cases_cons m) [
              | inl k ↦ subst (λ w. gt x w ≡ false) (sym k) (gt_irrefl x)
              | inr k ↦ All-Memᴰ (λ z. gt x z ≡ false) xs below k
            ])
      | inr e ↦ elim (Memᴰ.cases_cons m) [
        | inl k ↦ absurd (ground (arith, subst (λ w. p w ≡ true) k q))
        | inr k ↦ find-best p xs s (ground arith) k q
      ]
    ]
