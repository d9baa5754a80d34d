-- ===== src/Proxy/Upstream/Examples.antt =====
-- A request below `/api/`, whose URI is its path, its query and its host.
use proxy.Common.{◌≡◌, refl, false, Option, none, some, List, [], ◌∷◌, ◌++◌, unwrap_or, arith}
use proxy.Common.Text.{Str, codes, split_once, split, str_eq, starts_with, strip_prefix}
use proxy.Compile.Types.{UpstreamRequestMutation, CompiledPlan}
use proxy.Proxy.Path.{normalize_path, walk_segments, kind_of, render, join, rev_onto}
use proxy.Proxy.Upstream.{
  ok, err, bad_request, Http, Parts, Request, Context, with_path, set_path,
  apply_upstream_request_mutation, apply_mutations, insert_all, upstream_request_filter_inner,
}
use proxy.Proxy.Upstream.Paths.{Rewritten, upstream_request_filter-Rewritten, strip_prefix_slash}

-- A path and its query.
abbrev Target : Type 0
Target = Str × Option Str

abbrev target_of : Option Target → Target
target_of t = unwrap_or (codes "/", none) t

abbrev parse_target : Str → Target
parse_target s = elim (split_once b'?' s) [ none ↦ (s, none) | some (p, q) ↦ (p, some q) ]

-- URIs with their parts as they are, and header maps that accept everything.
abbrev demo : Http
demo = record {
  Uri = Parts Str Target;
  Authority = Str;
  PathAndQuery = Target;
  Headers = List (Str × Str);
  path = λ u. (target_of u.path_and_query).0;
  query = λ u. (target_of u.path_and_query).1;
  into_parts = λ u. u;
  from_parts = λ p. some p;
  parse_authority = λ s. some s;
  parse_path_and_query = λ s. some (parse_target s);
  root_path = (codes "/", none);
  insert_header = λ n v hs. some ((n, v) ∷ hs);
  append_header = λ n v hs. some ((n, v) ∷ hs);
  remove_header = λ n hs. hs;
}

abbrev asked_uri : Str → Parts Str Target
asked_uri path = record {
  scheme = none;
  authority = none;
  path_and_query = some (path, some (codes "k=v"));
}

abbrev asked : Str → Request demo
asked path = record { uri = asked_uri path; headers = [] }

strip_prefix_slash_example :
    apply_upstream_request_mutation demo
      (UpstreamRequestMutation.strip_prefix (codes "/api" ++ codes "/"))
      (asked (codes "/api/users"))
    ≡ err bad_request
strip_prefix_slash_example =
    strip_prefix_slash demo (codes "/api") b'u' (codes "sers") (asked (codes "/api/users")) refl
      (omega arith)

abbrev strip_plan : CompiledPlan
strip_plan = record {
  precedence = 0;
  rule_order = 0;
  gateway_api = false;
  disable_secure_redirection = false;
  listener_hostname = none;
  matches = record { path = none; method = none; headers = []; query_params = [] };
  request_stages = [];
  upstream = none;
  upstream_request_mutations = UpstreamRequestMutation.strip_prefix (codes "/api") ∷ [];
  response_mutations = [];
  body_rewrites = [];
  cache = none;
  websocket = false;
  client_cert_id = none;
}

abbrev context : Context demo
context = record {
  downstream_scheme = codes "https";
  client_ip = none;
  request_id = codes "1";
  upgrade_headers = [];
  auth_headers = [];
  plan = some strip_plan;
  backend_index = none;
}

abbrev forwarded : Request demo
forwarded = record {
  uri = asked_uri (codes "/users");
  headers = (codes "x-request-id", codes "1") ∷ (codes "x-forwarded-proto", codes "https") ∷ [];
}

filtered :
    upstream_request_filter_inner demo context (asked (codes "/api/v1/../users")) ≡ ok forwarded
unfolding upstream_request_filter_inner apply_mutations apply_upstream_request_mutation insert_all
    set_path with_path normalize_path walk_segments kind_of render join rev_onto split split_once
    str_eq starts_with strip_prefix
filtered = refl

upstream_request_filter-Rewritten_example :
    Rewritten demo (asked_uri (codes "/api/v1/../users")) (asked_uri (codes "/users"))
upstream_request_filter-Rewritten_example =
    upstream_request_filter-Rewritten demo context (asked (codes "/api/v1/../users")) forwarded
      filtered
