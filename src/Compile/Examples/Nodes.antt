-- ===== src/Compile/Examples/Nodes.antt =====
-- A trie node with more plans than the threshold of the discriminators.
use mathlib.Core.List.{Memᴰ}
use proxy.Common.{◌≡◌, refl, none, [], ◌∷◌, true}
use proxy.Common.Text.{codes, str_eq, eq_ignore_ascii_case}
use proxy.Compile.Types.{NodePlans}
use proxy.Compile.Request.{plan_matches}
use proxy.Compile.Discriminator.{add_discriminator, resolve_node_plans}
use proxy.Compile.Discriminator.Node.{resolve_complete}
use proxy.Compile.Examples.{iter, no_regex, no_headers, prefix_plan, prefix_case}

abbrev crowded : NodePlans
crowded = record {
  prefix_plans =
      prefix_plan ∷ prefix_plan ∷ prefix_plan ∷ prefix_plan ∷ prefix_plan ∷ prefix_plan
      ∷ prefix_plan ∷ prefix_plan ∷ [];
  exact_plans = prefix_plan ∷ [];
  discriminator = none;
}

plan_fits : plan_matches no_regex (codes "GET") no_headers none prefix_plan.plan ≡ true
unfolding plan_matches eq_ignore_ascii_case str_eq
plan_fits = refl

resolve_complete_example :
    Memᴰ prefix_plan
      (resolve_node_plans (codes "GET") no_headers none (add_discriminator iter crowded))
resolve_complete_example =
    resolve_complete (codes "GET") no_headers none iter no_regex crowded prefix_plan refl
      prefix_case plan_fits (Memᴰ.head refl)
