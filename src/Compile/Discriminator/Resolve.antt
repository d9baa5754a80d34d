-- ===== src/Compile/Discriminator/Resolve.antt =====
-- `resolve_node_plans` against the plans of the node.
use mathlib.Core.List.{Memᴰ}
use mathlib.Core.Path.{subst}
use proxy.Common.{
  ℕ, ◌≡◌, refl, sym, ap, ◌∙◌, inl, inr, Bool, true, Option, none, some, List, [], ◌∷◌, ◌++◌, arith,
  all, find_sound, Bool-cases, &&-split, Memᴰ-append_left, Memᴰ-append_right, ◌>>=◌, leb,
}
use proxy.Common.Text.{Str, str_eq_iff, eq_ignore_ascii_case}
use proxy.Common.HashMap.{bucket}
use proxy.Ir.{RequestMatch, HeaderMatch, HeaderMatchValue, QueryParamMatch, QueryParamMatchValue}
use proxy.Compile.Types.{ArcPlan, Discriminator}
use proxy.Compile.Request.{
  Headers, Regex, extract_query_param, plan_matches, header_value_matches, query_param,
  query_value_matches,
}
use proxy.Compile.Discriminator.{
  Slot, in_bucket, in_any, in_fallback, distribute, no_slots, method_slot, header_slot, query_slot,
  find_header, find_query, build_method_discriminator, build_header_discriminator,
  build_query_discriminator, header_or_query, query_or_none, resolve_kind, key_bucket, sort_buckets,
  sort_plans, count_of,
}
use proxy.Compile.Discriminator.Placement.{slot_complete}

all-Memᴰ {ℓ} :
    {A : Type ℓ} (p : A → Bool) (xs : List A) (a : A) → all p xs ≡ true → Memᴰ a xs → p a ≡ true
all-Memᴰ p [] a h m = elim m [ ]
all-Memᴰ p (x ∷ xs) a h (Memᴰ.head e) =
    subst (λ y. p y ≡ true) (sym e) ((&&-split (p x) (all p xs) h).0)
all-Memᴰ p (x ∷ xs) a h (Memᴰ.tail m) = all-Memᴰ p xs a ((&&-split (p x) (all p xs) h).1) m

-- The plans that a request resolves to in a discriminator.
abbrev pub disc_plans : Str → Headers → Option Str → Discriminator → List ArcPlan
disc_plans method headers query disc = resolve_kind method headers query disc.kind ++ disc.fallback

header_slot_value :
    (hm : HeaderMatch) (v : Str)
    → header_slot (some hm) ≡ in_bucket v
    → hm.value ≡ HeaderMatchValue.exact v
header_slot_value hm v e = ground arith

query_slot_value :
    (qm : QueryParamMatch) (v : Str)
    → query_slot (some qm) ≡ in_bucket v
    → qm.value ≡ QueryParamMatchValue.exact v
query_slot_value qm v e = ground arith

module _ (method : Str) (headers : Headers) (query : Option Str) where
  -- Where the request and a match agree up to letter case, they agree: the method, and the headers
  -- that the match compares exactly.
  pub record IsCaseExact (m : RequestMatch) : Type 0 where
    pub method_case :
        (expected : Str)
        → m.method ≡ some expected
        → eq_ignore_ascii_case expected method ≡ true
        → expected ≡ method
    pub header_case :
        (hm : HeaderMatch) (expected v : Str)
        → Memᴰ hm m.headers
        → hm.value ≡ HeaderMatchValue.exact expected
        → headers hm.name ≡ some v
        → eq_ignore_ascii_case v expected ≡ true
        → v ≡ expected

  key_bucket-mem :
      (key : Option Str) (k : Str) (m : List (Str × List ArcPlan)) {p : ArcPlan}
      → key ≡ some k
      → Memᴰ p (bucket k m)
      → Memᴰ p (key_bucket key m)
  key_bucket-mem key k m e h = rw e h

  -- A plan of a slot that the key reaches is among the resolved ones.
  reached :
      (slot : ArcPlan → Slot) (key : Option Str) (plans : List ArcPlan) (rest : List ArcPlan)
      {p : ArcPlan} (sl : Slot)
      → Memᴰ p plans
      → slot p ≡ sl
      → ((v : Str) → sl ≡ in_bucket v → key ≡ some v)
      → (sl ≡ in_fallback → Memᴰ p rest)
      → let s = distribute slot no_slots plans in
        Memᴰ p ((key_bucket key (sort_buckets s.exact) ++ sort_plans s.any) ++ rest)
  reached slot key plans rest (in_bucket v) m e k f = Memᴰ-append_left _ rest (
      Memᴰ-append_left (key_bucket key _) _
        (key_bucket-mem key v _ (k v refl) (slot_complete slot (in_bucket v) plans m e)))
  reached slot key plans rest in_any m e k f =
      Memᴰ-append_left _ rest
        (Memᴰ-append_right (key_bucket key _) _ (slot_complete slot in_any plans m e))
  reached slot key plans rest in_fallback m e k f = Memᴰ-append_right _ rest (f refl)

  module _ (re : Regex) where
    pub by_method-mem :
        (plans : List ArcPlan) (p : ArcPlan)
        → IsCaseExact p.plan.matches
        → plan_matches re method headers query p.plan ≡ true
        → Memᴰ p plans
        → Memᴰ p (disc_plans method headers query (build_method_discriminator plans))
    unfolding build_method_discriminator plan_matches
    by_method-mem plans p c h m =
        reached (λ q. method_slot q.plan.matches.method) (some method) plans []
          (method_slot p.plan.matches.method) m refl (λ v e. ground (arith, c.method_case v))
          (λ e. ground arith)

    exact_header :
        (v : Str) (val : Option Str)
        → header_value_matches re (HeaderMatchValue.exact v) val ≡ true
        → (w : Str) × (val ≡ some w) × (eq_ignore_ascii_case w v ≡ true)
    unfolding header_value_matches
    exact_header v none h = ground arith
    exact_header v (some w) h = (w, refl, h)

    exact_query :
        (v : Str) (val : Option Str)
        → query_value_matches re (QueryParamMatchValue.exact v) val ≡ true
        → val ≡ some v
    unfolding query_value_matches
    exact_query v none h = ground arith
    exact_query v (some w) h = ap some ((str_eq_iff w v).0 h)

    header_key :
        (name : Str) (p : ArcPlan) (found : Option HeaderMatch)
        → IsCaseExact p.plan.matches
        → plan_matches re method headers query p.plan ≡ true
        → find_header name p ≡ found
        → (v : Str) → header_slot found ≡ in_bucket v
        → headers name ≡ some v
    unfolding plan_matches
    header_key name p none c h f v e = cc
    header_key name p (some hm) c h f v e =
        let (m, same) = find_sound _ p.plan.matches.headers hm f in
        let (mh, hq) = &&-split _ _ h in
        let (hs, qs) = &&-split _ _ hq in
        let value : hm.value ≡ HeaderMatchValue.exact v = header_slot_value hm v e in
        let here = all-Memᴰ _ p.plan.matches.headers hm hs m in
        let (w, got, near) =
          exact_header v (headers hm.name)
            (subst (λ x. header_value_matches re x (headers hm.name) ≡ true) value here) in
        ap headers (sym ((str_eq_iff hm.name name).0 same))
        ∙ got
        ∙ ap some (c.header_case hm v w m value got near)

    by_header-mem :
        (plans : List ArcPlan) (name : Str) (p : ArcPlan)
        → IsCaseExact p.plan.matches
        → plan_matches re method headers query p.plan ≡ true
        → Memᴰ p plans
        → Memᴰ p (disc_plans method headers query (build_header_discriminator plans name))
    unfolding build_header_discriminator
    by_header-mem plans name p c h m =
        let slot : ArcPlan → Slot = λ q. header_slot (find_header name q) in
        reached slot (headers name) plans _ (slot p) m refl
          (header_key name p (find_header name p) c h refl)
          (λ e. slot_complete slot in_fallback plans m e)

    query_key :
        (name : Str) (p : ArcPlan) (found : Option QueryParamMatch)
        → plan_matches re method headers query p.plan ≡ true
        → find_query name p ≡ found
        → (v : Str) → query_slot found ≡ in_bucket v
        → query_param re method headers query name ≡ some v
    unfolding plan_matches
    query_key name p none h f v e = cc
    query_key name p (some qm) h f v e =
        let (m, same) = find_sound _ p.plan.matches.query_params qm f in
        let (mh, hq) = &&-split _ _ h in
        let (hs, qs) = &&-split _ _ hq in
        let value : qm.value ≡ QueryParamMatchValue.exact v = query_slot_value qm v e in
        let here = all-Memᴰ _ p.plan.matches.query_params qm qs m in
        ap (query_param re method headers query) (sym ((str_eq_iff qm.name name).0 same))
        ∙ exact_query v _ (
            subst
              (λ x. query_value_matches re x (query_param re method headers query qm.name) ≡ true)
              value here)

    by_query-mem :
        (plans : List ArcPlan) (name : Str) (p : ArcPlan)
        → plan_matches re method headers query p.plan ≡ true
        → Memᴰ p plans
        → Memᴰ p (disc_plans method headers query (build_query_discriminator plans name))
    unfolding build_query_discriminator
    by_query-mem plans name p h m =
        let slot : ArcPlan → Slot = λ q. query_slot (find_query name q) in
        reached slot (query >>= λ q. extract_query_param q name) plans _ (slot p) m refl
          (query_key name p (find_query name p) h refl)
          (λ e. slot_complete slot in_fallback plans m e)

    query_or_none-mem :
        (plans : List ArcPlan) (best : Option (Str × ℕ)) (p : ArcPlan)
        → plan_matches re method headers query p.plan ≡ true
        → Memᴰ p plans
        → Memᴰ p (disc_plans method headers query (query_or_none plans best))
    unfolding query_or_none bucket
    query_or_none-mem plans none p h m = m
    query_or_none-mem plans (some q) p h m = by_query-mem plans q.0 p h m

    pub header_or_query-mem :
        (plans : List ArcPlan) (best_header best_query : Option (Str × ℕ)) (p : ArcPlan)
        → IsCaseExact p.plan.matches
        → plan_matches re method headers query p.plan ≡ true
        → Memᴰ p plans
        → Memᴰ p (disc_plans method headers query (header_or_query plans best_header best_query))
    unfolding header_or_query
    header_or_query-mem plans none bq p c h m = query_or_none-mem plans bq p h m
    header_or_query-mem plans (some b) bq p c h m = elim (Bool-cases (leb (count_of bq) b.1)) [
      | inl e ↦ rw e (by_header-mem plans b.0 p c h m)
      | inr e ↦ rw e (query_or_none-mem plans bq p h m)
    ]
