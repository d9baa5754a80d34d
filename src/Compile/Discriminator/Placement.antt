-- ===== src/Compile/Discriminator/Placement.antt =====
-- What a discriminator's builder puts into which list.
use mathlib.Core.List.{Memᴰ}
use mathlib.Core.List.Memᴰ
use mathlib.Core.Path.{subst}
use proxy.Common.{
  ◌≡◌, refl, sym, ap, ◌∙◌, ◌⊎◌, inl, inr, List, [], ◌∷◌, ◌++◌, arith, Bool-cases, Memᴰ-append,
  Memᴰ-append_left, Memᴰ-append_right,
}
use proxy.Common.Text.{Str, str_eq, str_eq_iff, str_eq_refl}
use proxy.Common.HashMap.{bucket, bucket-entry_push}
use proxy.Common.Sort.{mem-sort_by, sort_by-mem, sort_by}
use proxy.Compile.Types.{ArcPlan}
use proxy.Compile.Discriminator.{
  plan_gt, sort_plans, Slot, in_bucket, in_any, in_fallback, Slots, place, distribute, no_slots,
  sort_buckets,
}

-- The list of a slot.
abbrev pub slot_list : Slot → Slots → List ArcPlan
slot_list (in_bucket v) s = bucket v s.exact
slot_list in_any s = s.any
slot_list in_fallback s = s.fallback

mem-snoc : {p q : ArcPlan} (ps : List ArcPlan) → Memᴰ q (ps ++ p ∷ []) → Memᴰ q ps ⊎ (q ≡ p)
mem-snoc ps h = elim (Memᴰ-append ps _ h) [
  | inl m ↦ inl m
  | inr m ↦ elim (Memᴰ.cases_cons m) [ inl e ↦ inr e | inr k ↦ elim k [ ] ]
]

snoc-mem : {p : ArcPlan} (ps : List ArcPlan) → Memᴰ p (ps ++ p ∷ [])
snoc-mem ps = Memᴰ-append_right ps _ (Memᴰ.head refl)

place-mem : (sl : Slot) (p : ArcPlan) (s : Slots) → Memᴰ p (slot_list sl (place sl p s))
unfolding place
place-mem (in_bucket v) p s =
    rw (bucket-entry_push v v p s.exact, str_eq_refl v) (snoc-mem (bucket v s.exact))
place-mem in_any p s = snoc-mem s.any
place-mem in_fallback p s = snoc-mem s.fallback

place_keeps :
    (sl to : Slot) (p : ArcPlan) {q : ArcPlan} (s : Slots)
    → Memᴰ q (slot_list sl s)
    → Memᴰ q (slot_list sl (place to p s))
unfolding place
place_keeps (in_bucket v) (in_bucket w) p s h = elim (Bool-cases (str_eq w v)) [
  | inl e ↦ rw (bucket-entry_push w v p s.exact, e) (Memᴰ-append_left (bucket v s.exact) _ h)
  | inr e ↦ rw (bucket-entry_push w v p s.exact, e) h
]
place_keeps in_any in_any p s h = Memᴰ-append_left s.any _ h
place_keeps in_fallback in_fallback p s h = Memᴰ-append_left s.fallback _ h
place_keeps (in_bucket v) in_any p s h = h
place_keeps (in_bucket v) in_fallback p s h = h
place_keeps in_any (in_bucket v) p s h = h
place_keeps in_any in_fallback p s h = h
place_keeps in_fallback (in_bucket v) p s h = h
place_keeps in_fallback in_any p s h = h

place_back :
    (sl to : Slot) (p : ArcPlan) {q : ArcPlan} (s : Slots)
    → Memᴰ q (slot_list sl (place to p s))
    → Memᴰ q (slot_list sl s) ⊎ ((q ≡ p) × (to ≡ sl))
unfolding place
place_back (in_bucket v) (in_bucket w) p s h = elim (Bool-cases (str_eq w v)) [
  | inl e ↦ elim (mem-snoc (bucket v s.exact) (rw (bucket-entry_push w v p s.exact, e) at h)) [
    | inl m ↦ inl m
    | inr k ↦ inr (k, ap in_bucket ((str_eq_iff w v).0 e))
  ]
  | inr e ↦ inl (rw (bucket-entry_push w v p s.exact, e) at h)
]
place_back in_any in_any p s h = elim (mem-snoc s.any h) [ inl m ↦ inl m | inr k ↦ inr (k, refl) ]
place_back in_fallback in_fallback p s h = elim (mem-snoc s.fallback h) [
  | inl m ↦ inl m
  | inr k ↦ inr (k, refl)
]
place_back (in_bucket v) in_any p s h = inl h
place_back (in_bucket v) in_fallback p s h = inl h
place_back in_any (in_bucket v) p s h = inl h
place_back in_any in_fallback p s h = inl h
place_back in_fallback (in_bucket v) p s h = inl h
place_back in_fallback in_any p s h = inl h

module _ (slot : ArcPlan → Slot) where
  distribute_keeps :
      (sl : Slot) {q : ArcPlan} (s : Slots) (plans : List ArcPlan)
      → Memᴰ q (slot_list sl s)
      → Memᴰ q (slot_list sl (distribute slot s plans))
  unfolding distribute
  distribute_keeps sl s [] h = h
  distribute_keeps sl s (p ∷ plans) h =
      distribute_keeps sl (place (slot p) p s) plans (place_keeps sl (slot p) p s h)

  distribute_complete :
      {q : ArcPlan} (s : Slots) (plans : List ArcPlan)
      → Memᴰ q plans
      → Memᴰ q (slot_list (slot q) (distribute slot s plans))
  unfolding distribute
  distribute_complete s [] h = elim h [ ]
  distribute_complete {q} s (p ∷ plans) (Memᴰ.head e) =
      distribute_keeps (slot q) (place (slot p) p s) plans (
        subst (λ r. Memᴰ q (slot_list (slot r) (place (slot p) p s))) (sym e)
          (subst (λ r. Memᴰ r (slot_list (slot p) (place (slot p) p s))) (sym e)
            (place-mem (slot p) p s)))
  distribute_complete s (p ∷ plans) (Memᴰ.tail h) = distribute_complete (place (slot p) p s) plans h

  distribute_sound :
      (sl : Slot) {q : ArcPlan} (s : Slots) (plans : List ArcPlan)
      → Memᴰ q (slot_list sl (distribute slot s plans))
      → Memᴰ q (slot_list sl s) ⊎ (Memᴰ q plans × (slot q ≡ sl))
  unfolding distribute
  distribute_sound sl s [] h = inl h
  distribute_sound sl {q} s (p ∷ plans) h =
      elim (distribute_sound sl (place (slot p) p s) plans h) [
        | inl m ↦ elim (place_back sl (slot p) p s m) [
          | inl k ↦ inl k
          | inr k ↦ inr (Memᴰ.head k.0, ap slot k.0 ∙ k.1)
        ]
        | inr k ↦ inr (Memᴰ.tail k.0, k.1)
      ]

pub bucket-sort_buckets :
    (k : Str) (m : List (Str × List ArcPlan)) → bucket k (sort_buckets m) ≡ sort_plans (bucket k m)
unfolding bucket sort_buckets sort_plans sort_by
bucket-sort_buckets k [] = refl
bucket-sort_buckets k ((j, ps) ∷ m) = ground (arith, bucket-sort_buckets k m)

pub sort_plans-mem : {p : ArcPlan} (ps : List ArcPlan) → Memᴰ p ps → Memᴰ p (sort_plans ps)
unfolding sort_plans
sort_plans-mem ps h = sort_by-mem plan_gt ps h

pub mem-sort_plans : {p : ArcPlan} (ps : List ArcPlan) → Memᴰ p (sort_plans ps) → Memᴰ p ps
unfolding sort_plans
mem-sort_plans ps h = mem-sort_by plan_gt ps h

-- The slots of a finished loop, with their lists sorted.
abbrev pub sorted_list : Slot → Slots → List ArcPlan
sorted_list (in_bucket v) s = bucket v (sort_buckets s.exact)
sorted_list in_any s = sort_plans s.any
sorted_list in_fallback s = sort_plans s.fallback

sorted_list-mem :
    (sl : Slot) (s : Slots) {p : ArcPlan} → Memᴰ p (slot_list sl s) → Memᴰ p (sorted_list sl s)
sorted_list-mem (in_bucket v) s h =
    rw (bucket-sort_buckets v s.exact) (sort_plans-mem (bucket v s.exact) h)
sorted_list-mem in_any s h = sort_plans-mem s.any h
sorted_list-mem in_fallback s h = sort_plans-mem s.fallback h

mem-sorted_list :
    (sl : Slot) (s : Slots) {p : ArcPlan} → Memᴰ p (sorted_list sl s) → Memᴰ p (slot_list sl s)
mem-sorted_list (in_bucket v) s h =
    mem-sort_plans (bucket v s.exact) (rw (bucket-sort_buckets v s.exact) at h)
mem-sorted_list in_any s h = mem-sort_plans s.any h
mem-sorted_list in_fallback s h = mem-sort_plans s.fallback h

not-mem-no_slots : (sl : Slot) {p : ArcPlan} → Memᴰ p (slot_list sl no_slots) → ⊥
unfolding bucket
not-mem-no_slots (in_bucket v) h = elim h [ ]
not-mem-no_slots in_any h = elim h [ ]
not-mem-no_slots in_fallback h = elim h [ ]

-- Every plan is in the sorted list of its slot, and nothing else is.
module _ (slot : ArcPlan → Slot) where
  pub slot_complete :
      {p : ArcPlan} (sl : Slot) (plans : List ArcPlan)
      → Memᴰ p plans
      → slot p ≡ sl
      → Memᴰ p (sorted_list sl (distribute slot no_slots plans))
  slot_complete {p} sl plans h e =
      subst (λ l. Memᴰ p (sorted_list l (distribute slot no_slots plans))) e
        (sorted_list-mem (slot p) _ (distribute_complete slot no_slots plans h))

  pub slot_sound :
      {p : ArcPlan} (sl : Slot) (plans : List ArcPlan)
      → Memᴰ p (sorted_list sl (distribute slot no_slots plans))
      → Memᴰ p plans × (slot p ≡ sl)
  slot_sound sl plans h = elim (distribute_sound slot sl no_slots plans (mem-sorted_list sl _ h)) [
    | inl m ↦ absurd (not-mem-no_slots sl m)
    | inr k ↦ k
  ]

  pub unsorted_complete :
      {p : ArcPlan} (sl : Slot) (plans : List ArcPlan)
      → Memᴰ p plans
      → slot p ≡ sl
      → Memᴰ p (slot_list sl (distribute slot no_slots plans))
  unsorted_complete {p} sl plans h e =
      subst (λ l. Memᴰ p (slot_list l (distribute slot no_slots plans))) e
        (distribute_complete slot no_slots plans h)

  pub unsorted_sound :
      {p : ArcPlan} (sl : Slot) (plans : List ArcPlan)
      → Memᴰ p (slot_list sl (distribute slot no_slots plans))
      → Memᴰ p plans × (slot p ≡ sl)
  unsorted_sound sl plans h = elim (distribute_sound slot sl no_slots plans h) [
    | inl m ↦ absurd (not-mem-no_slots sl m)
    | inr k ↦ k
  ]
