-- ===== src/Compile/Host.antt =====
-- src/ir/compile.rs: `compile_host` and `HostNode::lookup`. The address of an `Arc` is the number of
-- the allocation, which tells the plans of a host apart. `insert_plan_into_trie` always succeeds,
-- so the trie is built without its `Result`.
pub mod Plans
pub mod Candidates
pub mod Lookup
pub mod Choice
use proxy.Common.{
  ℕ, zero, suc, ◌+◌, Bool, true, false, ◌&&◌, ◌||◌, not, Option, none, some, List, [], ◌∷◌, ◌++◌,
  length, any, find, filter, flat_map, if◌then◌else◌, ◌==◌, or_else,
}
use proxy.Common.Text.{Str}
use proxy.Common.HashMap.{entry_push, bucket}
use proxy.Ir.{PathMatch, RequestMatch, RewriteRule, Action, Rule, HostRoute}
use proxy.Compile.Types.{ArcPlan, HostNode, Result, ok, ◌>>=◌}
use proxy.Compile.Plan.{compile_plan, compute_precedence}
use proxy.Compile.Request.{Regex, Headers, plan_matches, plan_regex_path_matches}
use proxy.Compile.Discriminator.{
  Slot, in_bucket, in_any, in_fallback, distribute, no_slots, sort_plans, sort_buckets,
}
use proxy.Compile.Trie.{empty_node, insert_plans, build_discriminators, split_path, walk}

-- The loop over a rule's matches; `n` numbers the next allocation.
unfoldable pub compile_matches :
    HostRoute → Rule → ℕ → ℕ → List RequestMatch → Result (List ArcPlan)
compile_matches host rule precedence n [] = ok []
compile_matches host rule precedence n (m ∷ ms) = do
  plan ←
      compile_plan rule precedence m host.gateway_api host.disable_secure_redirection
        host.listener_hostname
  rest ← compile_matches host rule precedence (suc n) ms
  ok (record { as_ptr = n; plan = plan } ∷ rest)

unfoldable pub compile_rules : HostRoute → ℕ → List Rule → Result (List ArcPlan)
unfolding compile_matches
compile_rules host n [] = ok []
compile_rules host n (rule ∷ rules) = do
  plans ← compile_matches host rule (compute_precedence rule) n rule.matches
  rest ← compile_rules host (n + length plans) rules
  ok (plans ++ rest)

-- The plans of a host: `all_plans` in `compile_host`.
unfoldable pub compile_plans : HostRoute → Result (List ArcPlan)
unfolding compile_rules
compile_plans host = compile_rules host 0 host.rules

-- Where the loop over the plans of `compile_host` puts one: `exact_paths`, `trie_plans` or
-- `regex_plans`, which are the buckets, `any` and `fallback` of its slots.
abbrev pub path_slot : Option PathMatch → Slot
path_slot (some (PathMatch.regex _)) = in_fallback
path_slot (some (PathMatch.exact path)) = in_bucket path
path_slot _ = in_any

abbrev pub plan_slot : ArcPlan → Slot
plan_slot p = path_slot p.plan.matches.path

abbrev rewrites_of : Rule → List RewriteRule
rewrites_of rule = elim rule.action [ Action.static_files sfa ↦ sfa.rewrites | _ ↦ [] ]

-- The rest of `compile_host`, on the plans.
unfoldable pub assemble : (List (Str × ℕ) → List (Str × ℕ)) → HostRoute → List ArcPlan → HostNode
assemble iter host plans =
    let s = distribute plan_slot no_slots plans in
    record {
      hostname = host.hostname;
      listener_ids = host.listener_ids;
      listener_hostname = host.listener_hostname;
      listener_port = host.listener_port;
      gateway_api = host.gateway_api;
      disable_secure_redirection = host.disable_secure_redirection;
      path_trie = build_discriminators iter (insert_plans empty_node s.any);
      exact_paths = sort_buckets s.exact;
      regex_plans = sort_plans s.fallback;
      static_rewrites = flat_map rewrites_of host.rules;
    }

unfoldable pub compile_host : (List (Str × ℕ) → List (Str × ℕ)) → HostRoute → Result HostNode
unfolding assemble
compile_host iter host = do plans ← compile_plans host; ok (assemble iter host plans)

abbrev pub contains : List ℕ → ℕ → Bool
contains seen ptr = any (λ y. y == ptr) seen

-- `seen.insert(ptr)`, the set after it.
abbrev pub see : ℕ → List ℕ → List ℕ
see ptr seen = if contains seen ptr then seen else ptr ∷ seen

module _ (re : Regex) (method : Str) (headers : Headers) (query : Option Str) where
  -- The last loop of `lookup`.
  unfoldable pub first_match : List ℕ → List ArcPlan → Option ArcPlan
  first_match seen [] = none
  first_match seen (p ∷ candidates) =
      let rest = first_match (see p.as_ptr seen) candidates in
      if not (contains seen p.as_ptr) && plan_matches re method headers query p.plan
      then some p
      else rest

  unfoldable pub candidates : HostNode → Str → List ArcPlan
  candidates node path =
      walk method headers query (split_path path) node.path_trie
      ++ filter
          (λ p.
            plan_matches re method headers query p.plan && plan_regex_path_matches re p.plan path)
          node.regex_plans

  unfoldable pub lookup : HostNode → Str → Option ArcPlan
  unfolding first_match candidates
  lookup node path =
      or_else
        (find (λ p. plan_matches re method headers query p.plan) (bucket path node.exact_paths))
        (first_match [] (sort_plans (candidates node path)))
