-- ===== src/Compile/Request.antt =====
-- src/ir/compile.rs: the tests of a request against a plan and a host name pattern. The `regex`
-- crate is the parameter `re`: the matcher of a pattern, or `none` where `Regex::new` fails.
use proxy.Common.{
  ℕ, ◌+◌, Bool, true, not, ◌&&◌, ◌||◌, Option, none, some, List, [], ◌∷◌, ◌++◌, all, filter, length,
  is_some, is_some_and, if◌then◌else◌, ◌==◌, ◌>>=◌,
}
use proxy.Common.Text.{
  Str, codes, str_eq, eq_ignore_ascii_case, split, split_once, strip_suffix, starts_with, is_empty,
}
use proxy.Ir.{
  HostnameMatch, PathMatch, HeaderMatch, HeaderMatchValue, QueryParamMatch, QueryParamMatchValue,
  RequestMatch,
}
use proxy.Compile.Types.{CompiledPlan}

-- `Regex::new(pattern).ok()`.
abbrev pub Regex : Type 0
Regex = Str → Option (Str → Bool)

-- `headers.get(name).and_then(|v| v.to_str().ok())`.
abbrev pub Headers : Type 0
Headers = Str → Option Str

-- The value of one `key=value` pair, if its key is `name`.
pair_value : Str → Str → Option Str
pair_value name pair = elim (split_once b'=' pair) [
  | none ↦ if str_eq pair name then some [] else none
  | some (k, v) ↦ if str_eq k name then some v else none
]

-- `Iterator::find_map` over the pairs.
first_pair : Str → List Str → Option Str
first_pair name [] = none
first_pair name (pair ∷ pairs) = elim (pair_value name pair) [
  | none ↦ first_pair name pairs
  | some v ↦ some v
]

unfoldable pub extract_query_param : Str → Str → Option Str
unfolding first_pair pair_value
extract_query_param query name = first_pair name (split b'&' query)

unfoldable pub strip_dot : Str → Option Str
strip_dot rest = strip_suffix rest (codes ".")

-- `s.strip_suffix(suffix).and_then(|r| r.strip_suffix('.')).is_some_and(|r| !r.is_empty())`.
unfoldable pub under_suffix : Str → Str → Bool
unfolding strip_dot
under_suffix s suffix = is_some_and (λ r. not (is_empty r)) (strip_suffix s suffix >>= strip_dot)

unfoldable pub ir_hostname_matches : Str → HostnameMatch → Bool
unfolding under_suffix
ir_hostname_matches host (HostnameMatch.exact s) = str_eq host s
ir_hostname_matches host (HostnameMatch.prefix pre) =
    str_eq host pre || starts_with host (pre ++ codes ".")
ir_hostname_matches host (HostnameMatch.wildcard suffix) = under_suffix host suffix
ir_hostname_matches host HostnameMatch.any = true

abbrev pub count_dots : Str → ℕ
count_dots s = length (filter (λ c. c == b'.') s)

unfoldable pub ir_listener_specificity_score : HostnameMatch → ℕ
ir_listener_specificity_score (HostnameMatch.exact s) = if is_empty s then 0 else 1000
ir_listener_specificity_score (HostnameMatch.prefix _) = 500
ir_listener_specificity_score (HostnameMatch.wildcard s) = 100 + count_dots s
ir_listener_specificity_score HostnameMatch.any = 0

unfoldable pub specificity_score : HostnameMatch → ℕ
specificity_score (HostnameMatch.exact _) = 1000
specificity_score (HostnameMatch.prefix _) = 500
specificity_score (HostnameMatch.wildcard s) = 100 + count_dots s
specificity_score HostnameMatch.any = 0

module _ (re : Regex) where
  unfoldable pub regex_is_match : Str → Str → Bool
  regex_is_match pattern_text v = is_some_and (λ f. f v) (re pattern_text)

  unfoldable pub header_value_matches : HeaderMatchValue → Option Str → Bool
  unfolding regex_is_match
  header_value_matches (HeaderMatchValue.exact expected) val =
      is_some_and (λ v. eq_ignore_ascii_case v expected) val
  header_value_matches (HeaderMatchValue.regex p) val = is_some_and (λ v. regex_is_match p v) val
  header_value_matches HeaderMatchValue.present val = is_some val
  header_value_matches HeaderMatchValue.absent val = not (is_some val)

  unfoldable pub query_value_matches : QueryParamMatchValue → Option Str → Bool
  unfolding regex_is_match
  query_value_matches (QueryParamMatchValue.exact expected) val =
      is_some_and (λ v. str_eq v expected) val
  query_value_matches (QueryParamMatchValue.regex p) val = is_some_and (λ v. regex_is_match p v) val

  module _ (method : Str) (headers : Headers) (query : Option Str) where
    abbrev pub method_matches : Option Str → Bool
    method_matches none = true
    method_matches (some expected) = eq_ignore_ascii_case expected method

    abbrev pub header_matches : HeaderMatch → Bool
    header_matches hm = header_value_matches hm.value (headers hm.name)

    abbrev pub query_param : Str → Option Str
    query_param name = query >>= λ q. extract_query_param q name

    abbrev pub query_param_matches : QueryParamMatch → Bool
    query_param_matches qm = query_value_matches qm.value (query_param qm.name)

    -- The tests of `plan_matches` on the plan's `matches`; the path is tested elsewhere.
    unfoldable pub request_matches : RequestMatch → Bool
    request_matches m =
        method_matches m.method
        && (all header_matches m.headers && all query_param_matches m.query_params)

    unfoldable pub plan_matches : CompiledPlan → Bool
    unfolding request_matches
    plan_matches plan = request_matches plan.matches

  abbrev pub regex_path_fits : Option PathMatch → Str → Bool
  regex_path_fits (some (PathMatch.regex p)) path = regex_is_match p path
  regex_path_fits _ path = true

  unfoldable pub plan_regex_path_matches : CompiledPlan → Str → Bool
  plan_regex_path_matches plan path = regex_path_fits plan.matches.path path
