-- ===== src/Compile/Host/Choice.antt =====
-- Which plan `HostNode::lookup` chooses, in terms of the rules the host was compiled from.
use mathlib.Core.List.{Memᴰ}
use mathlib.Core.Path.{subst}
use proxy.Common.{
  ℕ, ◌≤◌, ◌<◌, ◌≡◌, refl, sym, ap, ◌∙◌, ◌⊎◌, inl, inr, Bool, true, false, Option, none, some, List,
  arith, find, find_sound, find-none, Bool-cases, Option-cases,
}
use proxy.Common.Text.{Str}
use proxy.Common.Sort.{find-best, IsSorted}
use proxy.Common.HashMap.{bucket}
use proxy.Ir.{PathMatch, RequestMatch, Rule, HostRoute}
use proxy.Compile.Types.{ArcPlan, HostNode, ok}
use proxy.Compile.Plan.{compute_precedence}
use proxy.Compile.Plan.Fields.{KeepsFields, compile_plan-KeepsFields}
use proxy.Compile.Request.{Regex, Headers, plan_matches, request_matches}
use proxy.Compile.Discriminator.{in_bucket, distribute, no_slots, plan_gt, sort_plans}
use proxy.Compile.Discriminator.Placement.{
  sorted_list, slot_complete, slot_sound, bucket-sort_buckets, sort_plans-mem, mem-sort_plans,
}
use proxy.Compile.Discriminator.Resolve.{IsCaseExact}
use proxy.Compile.Host.{
  compile_plans, assemble, compile_host, path_slot, plan_slot, candidates, lookup,
}
use proxy.Compile.Host.Plans.{IsPlanOf, compile_plans_total, compile_plans-ArePlans}
use proxy.Compile.Host.Candidates.{PathFits, candidates_sound, candidates_complete}
use proxy.Compile.Host.Lookup.{
  fits_request, plan_gt-IsTotalOrder, sort_plans-IsSorted, lookup_cases,
}

abbrev pub is_exact : Option PathMatch → Bool
is_exact (some (PathMatch.exact _)) = true
is_exact _ = false

exact_slot :
    (re : Regex) (m : Option PathMatch) (path : Str)
    → is_exact m ≡ true
    → PathFits re m path
    → path_slot m ≡ in_bucket path
exact_slot re none path e f = ground arith
exact_slot re (some (PathMatch.prefix p)) path e f = ground arith
exact_slot re (some (PathMatch.exact p)) path e f = ap (λ s. in_bucket s) f
exact_slot re (some (PathMatch.regex p)) path e f = ground arith

slot_exact :
    (m : Option PathMatch) (path : Str)
    → path_slot m ≡ in_bucket path
    → m ≡ some (PathMatch.exact path)
slot_exact none path e = cc
slot_exact (some (PathMatch.prefix p)) path e = cc
slot_exact (some (PathMatch.exact p)) path e =
    let s : p ≡ path = cc in ap (λ q. some (PathMatch.exact q)) s
slot_exact (some (PathMatch.regex p)) path e = cc

exact_fits :
    (re : Regex) (m : Option PathMatch) (path : Str)
    → m ≡ some (PathMatch.exact path)
    → PathFits re m path
exact_fits re m path e = subst (λ o. PathFits re o path) (sym e) refl

-- `compile_host` never fails, and its node is assembled from the plans of the host.
pub compile_host_plans :
    (iter : List (Str × ℕ) → List (Str × ℕ)) (host : HostRoute) (node : HostNode)
    → compile_host iter host ≡ ok node
    → (plans : List ArcPlan) × (compile_plans host ≡ ok plans) × (assemble iter host plans ≡ node)
unfolding compile_host
compile_host_plans iter host node e =
    let (plans, ep, k) = compile_plans_total host in
    let built : ok (assemble iter host plans) ≡ ok node = rw ep at e in (plans, ep, cc)

-- Every host compiles.
pub compile_host_total :
    (iter : List (Str × ℕ) → List (Str × ℕ)) (host : HostRoute)
    → (node : HostNode) × (compile_host iter host ≡ ok node)
unfolding compile_host
compile_host_total iter host =
    let (plans, ep, k) = compile_plans_total host in (assemble iter host plans, rw ep refl)

module _ (iter : List (Str × ℕ) → List (Str × ℕ)) (host : HostRoute) (re : Regex) (method : Str)
    (headers : Headers) (query : Option Str) (path : Str) where
  abbrev own_bucket : List ArcPlan → List ArcPlan
  own_bucket plans = sorted_list (in_bucket path) (distribute plan_slot no_slots plans)

  abbrev sorted_candidates : List ArcPlan → List ArcPlan
  sorted_candidates plans =
      sort_plans (candidates re method headers query (assemble iter host plans) path)

  abbrev fits : ArcPlan → Bool
  fits p = fits_request re method headers query p

  own_bucket-IsSorted : (plans : List ArcPlan) → IsSorted plan_gt (own_bucket plans)
  own_bucket-IsSorted plans =
      let s = distribute plan_slot no_slots plans in
      subst (λ l. IsSorted plan_gt l) (sym (bucket-sort_buckets path s.exact))
        (sort_plans-IsSorted (bucket path s.exact))

  -- The two sources of a found plan.
  found_cases :
      (plans : List ArcPlan) (p : ArcPlan)
      → compile_plans host ≡ ok plans
      → lookup re method headers query (assemble iter host plans) path ≡ some p
      → (find fits (own_bucket plans) ≡ some p)
        ⊎ ((find fits (own_bucket plans) ≡ none) × (find fits (sorted_candidates plans) ≡ some p))
  found_cases plans p e h = elim (lookup_cases re method headers query iter host plans path e) [
    | inl (q, f, l) ↦ inl (f ∙ sym l ∙ h)
    | inr (f, l) ↦ inr (f, sym l ∙ h)
  ]

  found_sound :
      (plans : List ArcPlan) (p : ArcPlan)
      → compile_plans host ≡ ok plans
      → lookup re method headers query (assemble iter host plans) path ≡ some p
      → Memᴰ p plans × (fits p ≡ true) × PathFits re p.plan.matches.path path
  found_sound plans p e h = elim (found_cases plans p e h) [
    | inl f ↦
        let (m, t) = find_sound fits (own_bucket plans) p f in
        let (here, slot) = slot_sound plan_slot (in_bucket path) plans m in
        (here, t, exact_fits re _ path (slot_exact p.plan.matches.path path slot))
    | inr (f, g) ↦
        let (m, t) = find_sound fits (sorted_candidates plans) p g in
        let (here, path_ok) =
          candidates_sound iter re method headers query host plans path p (mem-sort_plans _ m) in
        (here, t, path_ok)
  ]

  -- A lookup on a compiled host answers only with the plan of a match of one of the host's rules,
  -- which the request's path, method, headers and query all fit.
  pub lookup_sound :
      (node : HostNode) (p : ArcPlan)
      → compile_host iter host ≡ ok node
      → lookup re method headers query node path ≡ some p
      → (rule : Rule) × Memᴰ rule host.rules
        × (m : RequestMatch) × Memᴰ m rule.matches
        × IsPlanOf host rule m p.plan
        × PathFits re m.path path
        × (request_matches re method headers query m ≡ true)
  unfolding plan_matches
  lookup_sound node p c h =
      let (plans, ep, built) = compile_host_plans iter host node c in
      let h' : lookup re method headers query (assemble iter host plans) path ≡ some p =
        rw built h in
      let (mem, t, fitting) = found_sound plans p ep h' in
      let (rule, mr, m, mm, is) = (compile_plans-ArePlans host plans ep).sound p mem in
      let same = (compile_plan-KeepsFields rule _ m _ _ _ p.plan is).matches_eq in
      (
        rule,
        mr,
        m,
        mm,
        is,
        subst (λ (k : RequestMatch). PathFits re k.path path) same fitting,
        subst (λ (k : RequestMatch). request_matches re method headers query k ≡ true) same t,
      )

  -- The plan of a match that the request fits.
  fitting_plan :
      (plans : List ArcPlan) (rule : Rule) (m : RequestMatch)
      → compile_plans host ≡ ok plans
      → Memᴰ rule host.rules
      → Memᴰ m rule.matches
      → request_matches re method headers query m ≡ true
      → (q : ArcPlan) × Memᴰ q plans
        × (fits q ≡ true)
        × KeepsFields rule (compute_precedence rule) m q.plan
  unfolding plan_matches
  fitting_plan plans rule m e mr mm f =
      let (q, mem, is) = (compile_plans-ArePlans host plans e).complete rule m mr mm in
      let k = compile_plan-KeepsFields rule _ m _ _ _ q.plan is in
      (
        q,
        mem,
        subst (λ n. request_matches re method headers query n ≡ true) (sym k.matches_eq) f,
        k,
      )

  in_own_bucket :
      (plans : List ArcPlan) (q : ArcPlan)
      → Memᴰ q plans
      → is_exact q.plan.matches.path ≡ true
      → PathFits re q.plan.matches.path path
      → Memᴰ q (own_bucket plans)
  in_own_bucket plans q m e f =
      slot_complete plan_slot (in_bucket path) plans m (exact_slot re q.plan.matches.path path e f)

  in_candidates :
      (plans : List ArcPlan) (q : ArcPlan)
      → IsCaseExact method headers query q.plan.matches
      → fits q ≡ true
      → Memᴰ q plans
      → is_exact q.plan.matches.path ≡ false
      → PathFits re q.plan.matches.path path
      → Memᴰ q (sorted_candidates plans)
  in_candidates plans q c t m e f = sort_plans-mem _ (
      candidates_complete iter re method headers query host plans path q c t m f
        (λ s k. let x = ap is_exact (slot_exact q.plan.matches.path s k) in ground (arith, x)))

  -- A request whose path, method, headers and query fit a match of one of the host's rules is
  -- answered with some plan of the compiled host, when the request spells the match's method and its
  -- exact header values in the same letter case.
  pub lookup_complete :
      (node : HostNode) (rule : Rule) (m : RequestMatch)
      → compile_host iter host ≡ ok node
      → Memᴰ rule host.rules
      → Memᴰ m rule.matches
      → PathFits re m.path path
      → request_matches re method headers query m ≡ true
      → IsCaseExact method headers query m
      → (p : ArcPlan) × (lookup re method headers query node path ≡ some p)
  lookup_complete node rule m c mr mm f t ce =
      let (plans, ep, built) = compile_host_plans iter host node c in
      let (q, mem, tq, k) = fitting_plan plans rule m ep mr mm t in
      let fq = subst (λ (n : RequestMatch). PathFits re n.path path) (sym k.matches_eq) f in
      let cq = subst (λ n. IsCaseExact method headers query n) (sym k.matches_eq) ce in
      let l : (p : ArcPlan) × (lookup re method headers query (assemble iter host plans) path
            ≡ some p) =
        elim (lookup_cases re method headers query iter host plans path ep) [
          | inl (p, _, found) ↦ (p, found)
          | inr (none_own, found) ↦ elim (Option-cases (find fits (sorted_candidates plans))) [
            | inr (p, g) ↦ (p, found ∙ g)
            | inl g ↦ elim (Bool-cases (is_exact q.plan.matches.path)) [
              | inl x ↦
                  absurd (
                    ground
                      (arith, tq, find-none fits _ q none_own (in_own_bucket plans q mem x fq)))
              | inr x ↦
                  absurd (
                    ground (arith, tq, find-none fits _ q g (in_candidates plans q cq tq mem x fq)))
            ]
          ]
        ] in
      (l.0, rw built at l.1)

  candidate_not_exact :
      (plans : List ArcPlan) (p : ArcPlan)
      → Memᴰ p (sorted_candidates plans)
      → is_exact p.plan.matches.path ≡ true
      → Memᴰ p (own_bucket plans)
  candidate_not_exact plans p m e =
      let (here, f) =
        candidates_sound iter re method headers query host plans path p (mem-sort_plans _ m) in
      in_own_bucket plans p here e f

  -- When the request fits a match whose path is exactly the request's, the plan found on the compiled
  -- host has that exact path too: it wins over prefixes, patterns and matches without a path.
  pub lookup_exact_first :
      (node : HostNode) (rule : Rule) (m : RequestMatch) (p : ArcPlan)
      → compile_host iter host ≡ ok node
      → Memᴰ rule host.rules
      → Memᴰ m rule.matches
      → m.path ≡ some (PathMatch.exact path)
      → request_matches re method headers query m ≡ true
      → lookup re method headers query node path ≡ some p
      → p.plan.matches.path ≡ some (PathMatch.exact path)
  lookup_exact_first node rule m p c mr mm e t h =
      let (plans, ep, built) = compile_host_plans iter host node c in
      let h' : lookup re method headers query (assemble iter host plans) path ≡ some p =
        rw built h in
      let (q, mem, tq, k) = fitting_plan plans rule m ep mr mm t in
      let eq = ap (λ (n : RequestMatch). n.path) k.matches_eq ∙ e in
      elim (found_cases plans p ep h') [
        | inl f ↦
            let (own, _) = find_sound fits (own_bucket plans) p f in
            slot_exact p.plan.matches.path path (slot_sound plan_slot (in_bucket path) plans own).1
        | inr (n, _) ↦ absurd (
            ground (
              arith,
              tq,
              find-none fits _ q n
                  (in_own_bucket plans q mem (ap is_exact eq) (exact_fits re _ path eq)),
            ))
      ]

  not_above :
      (p q : ArcPlan) (rule : Rule) (m : RequestMatch)
      → KeepsFields rule (compute_precedence rule) m q.plan
      → plan_gt p q ≡ false
      → (compute_precedence rule < p.plan.precedence)
        ⊎ ((compute_precedence rule ≡ p.plan.precedence) × (p.plan.rule_order ≤ rule.rule_order))
  unfolding plan_gt
  not_above p q rule m k h = ground (arith, k.precedence_eq, k.rule_order_eq)

  -- The plan found on the compiled host comes no later than any match that the request fits, in the
  -- same letter case, and that is of the plan's kind, where the kinds are the exact paths and all
  -- others: the plan's precedence is higher than that of the match's rule, or it is the same and the
  -- plan's rule stands no later.
  pub lookup_best :
      (node : HostNode) (rule : Rule) (m : RequestMatch) (p : ArcPlan)
      → compile_host iter host ≡ ok node
      → Memᴰ rule host.rules
      → Memᴰ m rule.matches
      → PathFits re m.path path
      → request_matches re method headers query m ≡ true
      → IsCaseExact method headers query m
      → lookup re method headers query node path ≡ some p
      → is_exact m.path ≡ is_exact p.plan.matches.path
      → (compute_precedence rule < p.plan.precedence)
        ⊎ ((compute_precedence rule ≡ p.plan.precedence) × (p.plan.rule_order ≤ rule.rule_order))
  lookup_best node rule m p c mr mm f t ce h kind =
      let (plans, ep, built) = compile_host_plans iter host node c in
      let h' : lookup re method headers query (assemble iter host plans) path ≡ some p =
        rw built h in
      let (q, mem, tq, k) = fitting_plan plans rule m ep mr mm t in
      let fq = subst (λ (n : RequestMatch). PathFits re n.path path) (sym k.matches_eq) f in
      let cq = subst (λ n. IsCaseExact method headers query n) (sym k.matches_eq) ce in
      let kq : is_exact q.plan.matches.path ≡ is_exact p.plan.matches.path =
        ap (λ (n : RequestMatch). is_exact n.path) k.matches_eq ∙ kind in
      not_above p q rule m k (elim (found_cases plans p ep h') [
        | inl found ↦
            let (own, _) = find_sound fits (own_bucket plans) p found in
            let ps =
              slot_exact p.plan.matches.path path
                (slot_sound plan_slot (in_bucket path) plans own).1 in
            find-best plan_gt plan_gt-IsTotalOrder fits (own_bucket plans)
              (own_bucket-IsSorted plans) found (in_own_bucket plans q mem (kq ∙ ap is_exact ps) fq)
              tq
        | inr (n, found) ↦
            let (mp, tp) = find_sound fits (sorted_candidates plans) p found in
            elim (Bool-cases (is_exact q.plan.matches.path)) [
              | inl x ↦ absurd (
                  ground
                    (arith, tp, find-none fits _ p n (candidate_not_exact plans p mp (sym kq ∙ x))))
              | inr x ↦
                  find-best plan_gt plan_gt-IsTotalOrder fits (sorted_candidates plans)
                    (sort_plans-IsSorted
                      (candidates re method headers query (assemble iter host plans) path))
                    found (in_candidates plans q cq tq mem x fq) tq
            ]
      ])
