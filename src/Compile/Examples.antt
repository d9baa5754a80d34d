-- ===== src/Compile/Examples.antt =====
-- A route table with two hosts, run through the compiler and the lookups.
mod Tables
mod Layer4
mod Nodes
mod Precedences
use mathlib.Core.List.{Memᴰ}
use mathlib.Core.List.Memᴰ
use mathlib.Core.Option.{some-injective}
use proxy.Common.{
  ℕ, ◌≤◌, ◌<◌, ◌+◌, ◌≡◌, ◌≢◌, refl, sym, ◌∙◌, ◌⊎◌, inl, inr, Bool, true, false, Option, none, some,
  List, [], ◌∷◌, ◌++◌, arith,
}
use proxy.Common.Text.{Str, codes, split, str_eq, eq_ignore_ascii_case}
use proxy.Common.HashMap.{bucket, entry_push}
use proxy.Common.Sort.{sort_by}
use proxy.Ir.{
  HostnameMatch, PathMatch, RequestMatch, Action, FixedResponseAction, Rule, HostRoute, RouteTable,
}
use proxy.Compile.Types.{CompiledPlan, ArcPlan, HostNode, CompiledRouteTable, Result, ok, err}
use proxy.Compile.Plan.{compile_plan, compute_precedence, pack}
use proxy.Compile.Request.{
  Regex, Headers, plan_matches, plan_regex_path_matches, request_matches, ir_hostname_matches,
}
use proxy.Compile.Discriminator.{
  distribute, sort_plans, sort_buckets, plan_gt, resolve_node_plans, add_discriminator,
}
use proxy.Compile.Trie.{walk, insert_plans, build_discriminators, split_path, get_child}
use proxy.Compile.Discriminator.Resolve.{IsCaseExact}
use proxy.Compile.Host.{compile_host, compile_plans, assemble, candidates, first_match, lookup}
use proxy.Compile.Host.Plans.{IsPlanOf}
use proxy.Compile.Host.Candidates.{PathFits}
use proxy.Compile.Host.Choice.{
  lookup_sound, lookup_complete, lookup_exact_first, lookup_best, compile_host_total,
}

abbrev iter : List (Str × ℕ) → List (Str × ℕ)
iter counts = counts

abbrev no_regex : Regex
no_regex pattern_text = none

abbrev no_headers : Headers
no_headers name = none

abbrev fixed : ℕ → Action
fixed status = Action.fixed_response (record { status = status; headers = []; body = none })

abbrev prefix_match : RequestMatch
prefix_match = record {
  path = some (PathMatch.prefix (codes "/api"));
  method = some (codes "GET");
  headers = [];
  query_params = [];
}

abbrev exact_match : RequestMatch
exact_match = record {
  path = some (PathMatch.exact (codes "/api/x"));
  method = none;
  headers = [];
  query_params = [];
}

abbrev prefix_rule : Rule
prefix_rule = record { matches = prefix_match ∷ []; action = fixed 200; rule_order = 0 }

abbrev exact_rule : Rule
exact_rule = record { matches = exact_match ∷ []; action = fixed 201; rule_order = 1 }

abbrev demo_host : HostRoute
demo_host = record {
  hostname = HostnameMatch.wildcard (codes "example.com");
  listener_ids = [];
  listener_hostname = none;
  listener_port = some 443;
  gateway_api = true;
  disable_secure_redirection = false;
  rules = prefix_rule ∷ exact_rule ∷ [];
}

abbrev plan_with : ℕ → ℕ → RequestMatch → CompiledPlan
plan_with precedence order m = record {
  precedence = precedence;
  rule_order = order;
  gateway_api = true;
  disable_secure_redirection = false;
  listener_hostname = none;
  matches = m;
  request_stages =
      proxy.Compile.Types.RequestStage.terminal
        (proxy.Compile.Types.TerminalAction.fixed_response (200 + order) [] none)
      ∷ [];
  upstream = none;
  upstream_request_mutations = [];
  response_mutations = [];
  body_rewrites = [];
  cache = none;
  websocket = false;
  client_cert_id = none;
}

abbrev prefix_plan : ArcPlan
prefix_plan = record {
  as_ptr = 0;
  plan = plan_with (compute_precedence prefix_rule) 0 prefix_match;
}

abbrev exact_plan : ArcPlan
exact_plan = record { as_ptr = 1; plan = plan_with (compute_precedence exact_rule) 1 exact_match }

abbrev demo_node : HostNode
demo_node = assemble iter demo_host (prefix_plan ∷ exact_plan ∷ [])

demo_compiles : compile_host iter demo_host ≡ ok demo_node
unfolding compile_host compile_plans compile_plan
demo_compiles = refl

demo_prefix :
    lookup no_regex (codes "GET") no_headers none demo_node (codes "/api/y") ≡ some prefix_plan
unfolding lookup assemble candidates plan_matches plan_regex_path_matches walk insert_plans
    build_discriminators distribute sort_plans plan_gt sort_buckets sort_by bucket entry_push
    split_path split resolve_node_plans add_discriminator eq_ignore_ascii_case str_eq
    compute_precedence pack get_child
demo_prefix = refl

demo_exact :
    lookup no_regex (codes "GET") no_headers none demo_node (codes "/api/x") ≡ some exact_plan
unfolding lookup assemble candidates plan_matches plan_regex_path_matches walk insert_plans
    build_discriminators distribute sort_plans plan_gt sort_buckets sort_by bucket entry_push
    split_path split resolve_node_plans add_discriminator eq_ignore_ascii_case str_eq
    compute_precedence pack get_child
demo_exact = refl

prefix_fits : PathFits no_regex prefix_match.path (codes "/api/y")
unfolding split_path split
prefix_fits = (codes "y" ∷ [], refl)

prefix_matches : request_matches no_regex (codes "GET") no_headers none prefix_match ≡ true
unfolding request_matches eq_ignore_ascii_case str_eq
prefix_matches = refl

exact_matches : request_matches no_regex (codes "GET") no_headers none exact_match ≡ true
unfolding request_matches
exact_matches = refl

prefix_case : IsCaseExact (codes "GET") no_headers none prefix_match
prefix_case = record {
  method_case = λ expected e h. sym (some-injective _ _ e);
  header_case = λ hm expected v m e h k. elim m [ ];
}

prefix_in : Memᴰ prefix_rule demo_host.rules
prefix_in = Memᴰ.head refl

exact_in : Memᴰ exact_rule demo_host.rules
exact_in = Memᴰ.tail (Memᴰ.head refl)

lookup_sound_example :
    (rule : Rule) × Memᴰ rule demo_host.rules
    × (m : RequestMatch) × Memᴰ m rule.matches
    × IsPlanOf demo_host rule m prefix_plan.plan
    × PathFits no_regex m.path (codes "/api/y")
    × (request_matches no_regex (codes "GET") no_headers none m ≡ true)
lookup_sound_example =
    lookup_sound iter demo_host no_regex (codes "GET") no_headers none (codes "/api/y") demo_node
      prefix_plan demo_compiles demo_prefix

lookup_complete_example :
    (p : ArcPlan) × (lookup no_regex (codes "GET") no_headers none demo_node (codes "/api/y")
      ≡ some p)
lookup_complete_example =
    lookup_complete iter demo_host no_regex (codes "GET") no_headers none (codes "/api/y") demo_node
      prefix_rule prefix_match demo_compiles prefix_in (Memᴰ.head refl) prefix_fits prefix_matches
      prefix_case

lookup_exact_first_example : exact_plan.plan.matches.path ≡ some (PathMatch.exact (codes "/api/x"))
lookup_exact_first_example =
    lookup_exact_first iter demo_host no_regex (codes "GET") no_headers none (codes "/api/x")
      demo_node exact_rule exact_match exact_plan demo_compiles exact_in (Memᴰ.head refl) refl
      exact_matches demo_exact

lookup_best_example :
    (compute_precedence prefix_rule < prefix_plan.plan.precedence)
    ⊎ ((compute_precedence prefix_rule ≡ prefix_plan.plan.precedence)
        × (prefix_plan.plan.rule_order ≤ prefix_rule.rule_order))
lookup_best_example =
    lookup_best iter demo_host no_regex (codes "GET") no_headers none (codes "/api/y") demo_node
      prefix_rule prefix_match prefix_plan demo_compiles prefix_in (Memᴰ.head refl) prefix_fits
      prefix_matches prefix_case demo_prefix refl

compile_host_total_example : (node : HostNode) × (compile_host iter demo_host ≡ ok node)
compile_host_total_example = compile_host_total iter demo_host
