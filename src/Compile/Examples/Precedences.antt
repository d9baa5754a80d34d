-- ===== src/Compile/Examples/Precedences.antt =====
-- The precedences of two rules, compared.
use proxy.Common.{◌<◌, ◌↔◌, arith}
use proxy.Compile.Plan.{compute_precedence}
use proxy.Compile.Plan.Precedence.{
  IsPackable, LexLess, longest_path, names_method, most_headers, most_queries,
  compute_precedence_lexicographic,
}
use proxy.Compile.Examples.{prefix_rule, exact_rule}

prefix-IsPackable : IsPackable prefix_rule
prefix-IsPackable = record {
  path_fits = omega arith;
  headers_fit = omega arith;
  queries_fit = omega arith;
}

exact-IsPackable : IsPackable exact_rule
exact-IsPackable = record {
  path_fits = omega arith;
  headers_fit = omega arith;
  queries_fit = omega arith;
}

compute_precedence_lexicographic_example :
    (compute_precedence prefix_rule < compute_precedence exact_rule)
    ↔ LexLess (longest_path prefix_rule) (longest_path exact_rule) (
        LexLess (names_method prefix_rule) (names_method exact_rule) (
          LexLess
            (most_headers prefix_rule)
            (most_headers exact_rule)
            (most_queries prefix_rule < most_queries exact_rule)))
compute_precedence_lexicographic_example =
    compute_precedence_lexicographic prefix_rule exact_rule prefix-IsPackable exact-IsPackable
