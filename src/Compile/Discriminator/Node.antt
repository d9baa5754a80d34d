-- ===== src/Compile/Discriminator/Node.antt =====
-- A trie node with a discriminator resolves to its own plans.
use mathlib.Core.List.{Memᴰ}
use proxy.Common.{
  ℕ, ◌≡◌, inl, inr, true, ◌&&◌, Option, none, some, List, [], ◌++◌, Bool-cases, Memᴰ-append, ltb,
  leb, length, ◌>>=◌,
}
use proxy.Common.Text.{Str}
use proxy.Common.HashMap.{bucket}
use proxy.Compile.Types.{ArcPlan, NodePlans}
use proxy.Compile.Request.{Headers, Regex, plan_matches, extract_query_param}
use proxy.Compile.Discriminator.{
  Slot, in_bucket, in_any, in_fallback, distribute, no_slots, method_slot, header_slot, query_slot,
  find_header, find_query, build_method_discriminator, build_header_discriminator,
  build_query_discriminator, build_discriminator, add_discriminator, choose, method_count,
  best_header, best_query, header_or_query, query_or_none, resolve_node_plans, key_bucket,
  sort_buckets, sort_plans, discriminator_threshold, count_of,
}
use proxy.Compile.Discriminator.Placement.{slot_sound}
use proxy.Compile.Discriminator.Resolve.{
  IsCaseExact, disc_plans, by_method-mem, header_or_query-mem,
}

module _ (method : Str) (headers : Headers) (query : Option Str) where
  unreached :
      (slot : ArcPlan → Slot) (key : Option Str) (plans : List ArcPlan) {p : ArcPlan}
      → let s = distribute slot no_slots plans in
        Memᴰ p (key_bucket key (sort_buckets s.exact) ++ sort_plans s.any) → Memᴰ p plans
  unreached slot none plans h = (slot_sound slot in_any plans h).0
  unreached slot (some k) plans h = elim (Memᴰ-append (bucket k _) _ h) [
    | inl m ↦ (slot_sound slot (in_bucket k) plans m).0
    | inr m ↦ (slot_sound slot in_any plans m).0
  ]

  method_sound :
      (plans : List ArcPlan) {p : ArcPlan}
      → Memᴰ p (disc_plans method headers query (build_method_discriminator plans))
      → Memᴰ p plans
  unfolding build_method_discriminator
  method_sound plans h =
      let slot : ArcPlan → Slot = λ q. method_slot q.plan.matches.method in
      elim (Memᴰ-append _ [] h) [
        | inl m ↦ unreached slot (some method) plans m
        | inr m ↦ elim m [ ]
      ]

  header_sound :
      (plans : List ArcPlan) (name : Str) {p : ArcPlan}
      → Memᴰ p (disc_plans method headers query (build_header_discriminator plans name))
      → Memᴰ p plans
  unfolding build_header_discriminator
  header_sound plans name h =
      let slot : ArcPlan → Slot = λ q. header_slot (find_header name q) in
      elim (Memᴰ-append (key_bucket (headers name) _ ++ _) _ h) [
        | inl m ↦ unreached slot (headers name) plans m
        | inr m ↦ (slot_sound slot in_fallback plans m).0
      ]

  query_sound :
      (plans : List ArcPlan) (name : Str) {p : ArcPlan}
      → Memᴰ p (disc_plans method headers query (build_query_discriminator plans name))
      → Memᴰ p plans
  unfolding build_query_discriminator
  query_sound plans name h =
      let slot : ArcPlan → Slot = λ q. query_slot (find_query name q) in
      let key : Option Str = query >>= λ q. extract_query_param q name in
      let s = distribute slot no_slots plans in
      elim (Memᴰ-append (key_bucket key (sort_buckets s.exact) ++ sort_plans s.any) _ h) [
        | inl m ↦ unreached slot key plans m
        | inr m ↦ (slot_sound slot in_fallback plans m).0
      ]

  query_or_none_sound :
      (plans : List ArcPlan) (best : Option (Str × ℕ)) {p : ArcPlan}
      → Memᴰ p (disc_plans method headers query (query_or_none plans best))
      → Memᴰ p plans
  unfolding query_or_none bucket
  query_or_none_sound plans none h = h
  query_or_none_sound plans (some q) h = query_sound plans q.0 h

  header_or_query_sound :
      (plans : List ArcPlan) (bh bq : Option (Str × ℕ)) {p : ArcPlan}
      → Memᴰ p (disc_plans method headers query (header_or_query plans bh bq))
      → Memᴰ p plans
  unfolding header_or_query
  header_or_query_sound plans none bq h = query_or_none_sound plans bq h
  header_or_query_sound plans (some b) bq h = elim (Bool-cases (leb (count_of bq) b.1)) [
    | inl e ↦ header_sound plans b.0 (rw e at h)
    | inr e ↦ query_or_none_sound plans bq (rw e at h)
  ]

  choose_sound :
      (plans : List ArcPlan) (n : ℕ) (bh bq : Option (Str × ℕ)) {p : ArcPlan}
      → Memᴰ p (disc_plans method headers query (choose plans n bh bq))
      → Memᴰ p plans
  unfolding choose
  choose_sound plans n bh bq h =
      elim (Bool-cases (leb (count_of bh) n && (leb (count_of bq) n && ltb 0 n))) [
        | inl e ↦ method_sound plans (rw e at h)
        | inr e ↦ header_or_query_sound plans bh bq (rw e at h)
      ]

  choose_complete :
      (re : Regex) (plans : List ArcPlan) (n : ℕ) (bh bq : Option (Str × ℕ)) (p : ArcPlan)
      → IsCaseExact method headers query p.plan.matches
      → plan_matches re method headers query p.plan ≡ true
      → Memᴰ p plans
      → Memᴰ p (disc_plans method headers query (choose plans n bh bq))
  unfolding choose
  choose_complete re plans n bh bq p c h m =
      elim (Bool-cases (leb (count_of bh) n && (leb (count_of bq) n && ltb 0 n))) [
        | inl e ↦ rw e (by_method-mem method headers query re plans p c h m)
        | inr e ↦ rw e (header_or_query-mem method headers query re plans bh bq p c h m)
      ]

  module _ (iter : List (Str × ℕ) → List (Str × ℕ)) where
    build_sound :
        (plans : List ArcPlan) {p : ArcPlan}
        → Memᴰ p (disc_plans method headers query (build_discriminator iter plans))
        → Memᴰ p plans
    unfolding build_discriminator
    build_sound plans h =
        choose_sound plans (method_count plans) (best_header iter plans) (best_query iter plans) h

    build_complete :
        (re : Regex) (plans : List ArcPlan) (p : ArcPlan)
        → IsCaseExact method headers query p.plan.matches
        → plan_matches re method headers query p.plan ≡ true
        → Memᴰ p plans
        → Memᴰ p (disc_plans method headers query (build_discriminator iter plans))
    unfolding build_discriminator
    build_complete re plans p c h m =
        choose_complete re plans (method_count plans) (best_header iter plans)
          (best_query iter plans) p c h m

    -- What is resolved at a node once its discriminator is added, if it gets one, are plans of the
    -- node: of its prefix plans or its exact plans.
    pub resolve_sound :
        (node : NodePlans) {p : ArcPlan}
        → node.discriminator ≡ none
        → Memᴰ p (resolve_node_plans method headers query (add_discriminator iter node))
        → Memᴰ p (node.prefix_plans ++ node.exact_plans)
    unfolding resolve_node_plans add_discriminator
    resolve_sound node {p} e h =
        let all_plans = node.prefix_plans ++ node.exact_plans in
        elim (Bool-cases (ltb discriminator_threshold (length all_plans))) [
          | inl many ↦ build_sound all_plans (rw many at h)
          | inr few ↦ rw (few, e) at h
        ]

    -- Every plan of a node that the request fits is resolved there once the node's discriminator is
    -- added, if it gets one, when the request spells the plan's method and exact header values in the
    -- same letter case.
    pub resolve_complete :
        (re : Regex) (node : NodePlans) (p : ArcPlan)
        → node.discriminator ≡ none
        → IsCaseExact method headers query p.plan.matches
        → plan_matches re method headers query p.plan ≡ true
        → Memᴰ p (node.prefix_plans ++ node.exact_plans)
        → Memᴰ p (resolve_node_plans method headers query (add_discriminator iter node))
    unfolding resolve_node_plans add_discriminator
    resolve_complete re node p e c h m =
        let all_plans = node.prefix_plans ++ node.exact_plans in
        elim (Bool-cases (ltb discriminator_threshold (length all_plans))) [
          | inl many ↦ rw many (build_complete re all_plans p c h m)
          | inr few ↦ rw (few, e) m
        ]
