-- ===== src/Compile/Host/Lookup.antt =====
-- `HostNode::lookup` on a compiled host, against the rules of the host.
use mathlib.Core.List.{Memᴰ}
use mathlib.Core.Path.{subst}
use proxy.Common.{
  ℕ, ◌≡◌, refl, ◌∙◌, ◌⊎◌, inl, inr, Bool, true, false, ◌&&◌, Option, none, some, List, [], ◌∷◌,
  arith, find, Bool-cases, Option-cases, if◌then◌else◌, or_else,
}
use proxy.Common.Text.{Str}
use proxy.Common.Sort.{IsTotalOrder, sort_by-IsSorted, IsSorted}
use proxy.Ir.{HostRoute}
use proxy.Compile.Types.{ArcPlan, ok}
use proxy.Compile.Request.{Regex, Headers, plan_matches}
use proxy.Compile.Discriminator.{in_bucket, distribute, no_slots, plan_gt, sort_plans}
use proxy.Compile.Discriminator.Placement.{sorted_list, mem-sort_plans}
use proxy.Compile.Host.{
  compile_plans, assemble, plan_slot, contains, see, first_match, candidates, lookup,
}
use proxy.Compile.Host.Plans.{as_ptr-injective}
use proxy.Compile.Host.Candidates.{candidates_sound}

pub plan_gt-IsTotalOrder : IsTotalOrder plan_gt
unfolding plan_gt
plan_gt-IsTotalOrder = record { asym = λ a b h. ground arith; trans = λ a b c h k. ground arith }

pub sort_plans-IsSorted : (plans : List ArcPlan) → IsSorted plan_gt (sort_plans plans)
unfolding sort_plans
sort_plans-IsSorted plans = sort_by-IsSorted plan_gt plan_gt-IsTotalOrder plans

contains-see :
    (seen : List ℕ) (a b : ℕ) → contains (see a seen) b ≡ true → (a ≡ b) ⊎ (contains seen b ≡ true)
contains-see seen a b h = ground arith

skip_lem {ℓ} :
    {A : Type ℓ} (a : Bool) {b : Bool} (x y : A) → b ≡ false → (if a && b then x else y) ≡ y
skip_lem true x y e = rw e refl
skip_lem false x y e = refl

module _ (re : Regex) (method : Str) (headers : Headers) (query : Option Str) where
  abbrev pub fits_request : ArcPlan → Bool
  fits_request p = plan_matches re method headers query p.plan

  -- Skipping addresses that were seen changes nothing: a plan that was seen did not match.
  pub first_match-find :
      (seen : List ℕ) (ps : List ArcPlan)
      → ((p q : ArcPlan) → Memᴰ p ps → Memᴰ q ps → p.as_ptr ≡ q.as_ptr → p ≡ q)
      → ((q : ArcPlan) → Memᴰ q ps → contains seen q.as_ptr ≡ true → fits_request q ≡ false)
      → first_match re method headers query seen ps ≡ find fits_request ps
  unfolding first_match
  first_match-find seen [] inj dull = refl
  first_match-find seen (p ∷ ps) inj dull = elim (Bool-cases (fits_request p)) [
    | inl f ↦ elim (Bool-cases (contains seen p.as_ptr)) [
      | inl old ↦ absurd (ground (arith, dull p (Memᴰ.head refl) old))
      | inr new ↦ rw (f, new)
    ]
    | inr f ↦
        skip_lem _ (some p) (first_match re method headers query (see p.as_ptr seen) ps) f
        ∙ first_match-find (see p.as_ptr seen) ps
            (λ x y mx my. inj x y (Memᴰ.tail mx) (Memᴰ.tail my))
            (λ q m h. elim (contains-see seen p.as_ptr q.as_ptr h) [
              | inl e ↦
                  subst (λ r. fits_request r ≡ false) (inj p q (Memᴰ.head refl) (Memᴰ.tail m) e) f
              | inr k ↦ dull q (Memᴰ.tail m) k
            ])
        ∙ rw f refl
  ]

  -- What a lookup finds on a host that has `plans`: the first fitting plan of the path's own bucket,
  -- else the first fitting candidate in precedence order.
  pub lookup_cases :
      (iter : List (Str × ℕ) → List (Str × ℕ)) (host : HostRoute) (plans : List ArcPlan)
      (path : Str)
      → compile_plans host ≡ ok plans
      → let bucket_plans = sorted_list (in_bucket path) (distribute plan_slot no_slots plans) in
        let node = assemble iter host plans in
        ((p : ArcPlan) × (find fits_request bucket_plans ≡ some p)
          × (lookup re method headers query node path ≡ some p))
        ⊎ ((find fits_request bucket_plans ≡ none)
            × (lookup re method headers query node path
                ≡ find fits_request (sort_plans (candidates re method headers query node path))))
  unfolding lookup assemble
  lookup_cases iter host plans path e =
      let node = assemble iter host plans in
      let bucket_plans = sorted_list (in_bucket path) (distribute plan_slot no_slots plans) in
      let cs = candidates re method headers query node path in
      let mem : (p : ArcPlan) → Memᴰ p (sort_plans cs) → Memᴰ p plans = λ p h.
        (candidates_sound iter re method headers query host plans path p (mem-sort_plans cs h)).0 in
      let same : first_match re method headers query [] (sort_plans cs)
          ≡ find fits_request (sort_plans cs) =
        first_match-find [] (sort_plans cs)
          (λ p q mp mq s. as_ptr-injective host plans p q e (mem p mp) (mem q mq) s)
          (λ q m h. ground arith) in
      let split : lookup re method headers query node path
          ≡ or_else (find fits_request bucket_plans)
              (first_match re method headers query [] (sort_plans cs)) =
        refl in
      elim (Option-cases (find fits_request bucket_plans)) [
        | inl f ↦ inr (f, split ∙ rw f same)
        | inr (p, f) ↦ inl (p, f, split ∙ rw f refl)
      ]
