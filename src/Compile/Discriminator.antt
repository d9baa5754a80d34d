-- ===== src/Compile/Discriminator.antt =====
-- src/ir/compile.rs: the adaptive discriminator of a trie node with many plans. The iteration order
-- of the count maps, a `HashMap`'s, is the parameter `iter`.
pub mod Placement
pub mod Resolve
pub mod Node
use proxy.Common.{
  ℕ, zero, suc, ◌+◌, Bool, true, false, ◌&&◌, Option, none, some, List, [], ◌∷◌, ◌++◌, map, filter,
  find, length, is_some, if◌then◌else◌, ◌==◌, ltb, leb, ◌>>=◌,
}
use proxy.Common.Text.{Str, str_eq}
use proxy.Common.HashMap.{entry_push, bucket}
use proxy.Common.Sort.{sort_by}
use proxy.Ir.{HeaderMatch, HeaderMatchValue, QueryParamMatch, QueryParamMatchValue}
use proxy.Compile.Types.{
  CompiledPlan, ArcPlan, DiscriminatorKind, by_method, by_header, by_query, Discriminator,
  NodePlans,
}
use proxy.Compile.Request.{Headers, extract_query_param}

abbrev pub discriminator_threshold : ℕ
discriminator_threshold = 8

-- `b.precedence.cmp(&a.precedence).then_with(|| a.rule_order.cmp(&b.rule_order))` is `Greater`.
unfoldable pub plan_gt : ArcPlan → ArcPlan → Bool
plan_gt a b =
    if a.plan.precedence == b.plan.precedence
    then ltb b.plan.rule_order a.plan.rule_order
    else ltb a.plan.precedence b.plan.precedence

unfoldable pub sort_plans : List ArcPlan → List ArcPlan
sort_plans plans = sort_by plan_gt plans

abbrev Counts : Type 0
Counts = List (Str × ℕ)

-- `*counts.entry(name).or_insert(0) += 1`.
count_one : Str → Counts → Counts
count_one k [] = (k, 1) ∷ []
count_one k ((j, n) ∷ m) = if str_eq j k then (j, n + 1) ∷ m else (j, n) ∷ count_one k m

count_headers : List HeaderMatch → Counts → Counts
count_headers [] counts = counts
count_headers (hm ∷ hms) counts = count_headers hms (count_one hm.name counts)

count_queries : List QueryParamMatch → Counts → Counts
count_queries [] counts = counts
count_queries (qm ∷ qms) counts = count_queries qms (count_one qm.name counts)

count_header_occurrences : List ArcPlan → Counts → Counts
count_header_occurrences [] counts = counts
count_header_occurrences (p ∷ plans) counts =
    count_header_occurrences plans (count_headers p.plan.matches.headers counts)

count_query_occurrences : List ArcPlan → Counts → Counts
count_query_occurrences [] counts = counts
count_query_occurrences (p ∷ plans) counts =
    count_query_occurrences plans (count_queries p.plan.matches.query_params counts)

-- `max_by_key(|(_, count)| *count)`: the last of the greatest.
max_by_count : Option (Str × ℕ) → Counts → Option (Str × ℕ)
max_by_count best [] = best
max_by_count none (c ∷ cs) = max_by_count (some c) cs
max_by_count (some b) (c ∷ cs) = max_by_count (some (if leb b.1 c.1 then c else b)) cs

abbrev pub count_of : Option (Str × ℕ) → ℕ
count_of none = 0
count_of (some b) = b.1

-- Where a builder's loop puts a plan.
pub data Slot : Type 0 where
  in_bucket : Str → Slot
  in_any in_fallback : Slot

pub record Slots : Type 0 where
  pub exact : List (Str × List ArcPlan)
  pub any : List ArcPlan
  pub fallback : List ArcPlan

pub place : Slot → ArcPlan → Slots → Slots
place (in_bucket v) p s = record s { exact = entry_push v p s.exact }
place in_any p s = record s { any = s.any ++ p ∷ [] }
place in_fallback p s = record s { fallback = s.fallback ++ p ∷ [] }

unfoldable pub distribute : (ArcPlan → Slot) → Slots → List ArcPlan → Slots
unfolding place
distribute slot s [] = s
distribute slot s (p ∷ plans) = distribute slot (place (slot p) p s) plans

abbrev pub no_slots : Slots
no_slots = record { exact = []; any = []; fallback = [] }

unfoldable pub sort_buckets : List (Str × List ArcPlan) → List (Str × List ArcPlan)
sort_buckets [] = []
sort_buckets ((k, ps) ∷ m) = (k, sort_plans ps) ∷ sort_buckets m

abbrev pub method_slot : Option Str → Slot
method_slot none = in_any
method_slot (some m) = in_bucket m

abbrev pub header_slot : Option HeaderMatch → Slot
header_slot none = in_any
header_slot (some hm) = elim hm.value [ HeaderMatchValue.exact v ↦ in_bucket v | _ ↦ in_fallback ]

abbrev pub query_slot : Option QueryParamMatch → Slot
query_slot none = in_any
query_slot (some qm) = elim qm.value [
  | QueryParamMatchValue.exact v ↦ in_bucket v
  | _ ↦ in_fallback
]

abbrev pub find_header : Str → ArcPlan → Option HeaderMatch
find_header name p = find (λ (h : HeaderMatch). str_eq h.name name) p.plan.matches.headers

abbrev pub find_query : Str → ArcPlan → Option QueryParamMatch
find_query name p = find (λ (q : QueryParamMatch). str_eq q.name name) p.plan.matches.query_params

unfoldable pub build_method_discriminator : List ArcPlan → Discriminator
unfolding distribute place sort_buckets
build_method_discriminator plans =
    let s = distribute (λ p. method_slot p.plan.matches.method) no_slots plans in
    record { kind = by_method (sort_buckets s.exact) (sort_plans s.any); fallback = [] }

unfoldable pub build_header_discriminator : List ArcPlan → Str → Discriminator
unfolding distribute place sort_buckets
build_header_discriminator plans name =
    let s = distribute (λ p. header_slot (find_header name p)) no_slots plans in
    record {
      kind = by_header name (sort_buckets s.exact) (sort_plans s.any);
      fallback = sort_plans s.fallback;
    }

unfoldable pub build_query_discriminator : List ArcPlan → Str → Discriminator
unfolding distribute place sort_buckets
build_query_discriminator plans name =
    let s = distribute (λ p. query_slot (find_query name p)) no_slots plans in
    record {
      kind = by_query name (sort_buckets s.exact) (sort_plans s.any);
      fallback = sort_plans s.fallback;
    }

abbrev no_discriminator : List ArcPlan → Discriminator
no_discriminator plans = record { kind = by_method [] []; fallback = plans }

query_or_none : List ArcPlan → Option (Str × ℕ) → Discriminator
query_or_none plans none = no_discriminator plans
query_or_none plans (some q) = build_query_discriminator plans q.0

-- The `else` branches of `build_discriminator`, on the best header and the best query parameter.
pub header_or_query : List ArcPlan → Option (Str × ℕ) → Option (Str × ℕ) → Discriminator
header_or_query plans none best_query = query_or_none plans best_query
header_or_query plans (some h) best_query =
    if leb (count_of best_query) h.1
    then build_header_discriminator plans h.0
    else query_or_none plans best_query

-- The branches of `build_discriminator`, on the three counts.
pub choose : List ArcPlan → ℕ → Option (Str × ℕ) → Option (Str × ℕ) → Discriminator
choose plans method_count best_header best_query =
    if leb (count_of best_header) method_count
      && (leb (count_of best_query) method_count && ltb 0 method_count)
    then build_method_discriminator plans
    else header_or_query plans best_header best_query

abbrev pub method_count : List ArcPlan → ℕ
method_count plans = length (filter (λ p. is_some p.plan.matches.method) plans)

module _ (iter : List (Str × ℕ) → List (Str × ℕ)) where
  pub best_header : List ArcPlan → Option (Str × ℕ)
  unfolding count_header_occurrences count_headers count_one max_by_count
  best_header plans = max_by_count none (iter (count_header_occurrences plans []))

  pub best_query : List ArcPlan → Option (Str × ℕ)
  unfolding count_query_occurrences count_queries count_one max_by_count
  best_query plans = max_by_count none (iter (count_query_occurrences plans []))

  unfoldable pub build_discriminator : List ArcPlan → Discriminator
  unfolding best_header best_query choose header_or_query query_or_none
  build_discriminator plans =
      choose plans (method_count plans) (best_header plans) (best_query plans)

  -- The body of `build_discriminators` at one node.
  unfoldable pub add_discriminator : NodePlans → NodePlans
  add_discriminator node =
      let all_plans = node.prefix_plans ++ node.exact_plans in
      if ltb discriminator_threshold (length all_plans)
      then record node { discriminator = some (build_discriminator all_plans) }
      else node

abbrev pub key_bucket : Option Str → List (Str × List ArcPlan) → List ArcPlan
key_bucket none exact = []
key_bucket (some k) exact = bucket k exact

module _ (method : Str) (headers : Headers) (query : Option Str) where
  abbrev pub resolve_kind : DiscriminatorKind → List ArcPlan
  resolve_kind (by_method exact any) = key_bucket (some method) exact ++ any
  resolve_kind (by_header name exact any) = key_bucket (headers name) exact ++ any
  resolve_kind (by_query name exact any) =
      key_bucket (query >>= λ q. extract_query_param q name) exact ++ any

  abbrev resolve_with : Option Discriminator → NodePlans → List ArcPlan
  resolve_with (some disc) node = resolve_kind disc.kind ++ disc.fallback
  resolve_with none node = node.prefix_plans ++ node.exact_plans

  unfoldable pub resolve_node_plans : NodePlans → List ArcPlan
  resolve_node_plans node = resolve_with node.discriminator node
