-- ===== src/Gateway/Grpc.antt =====
-- src/gateway/translate/grpc.rs: the rules of a GRPCRoute become rules of the route table.
use proxy.Common.{ℕ, Bool, true, false, Option, none, some, List, [], ◌∷◌, ◌++◌, map, if◌then◌else◌}
use proxy.Common.Text.{Str, codes, is_empty}
use mathlib.Core.Option
use proxy.Ir
use proxy.Gateway.Model.Routing.{
  PathMatch, RouteMatch, MethodMatchType, MethodMatch, exact_path, GrpcRouteMatch, GrpcRouteRule,
}
use proxy.Gateway.FromModel.{request_match, weighted_backend}
use proxy.Gateway.Http.{apply_header_filters, matches_or_default, unprogrammed_rule}

abbrev pub method_path_of : MethodMatchType → MethodMatch → Option PathMatch
method_path_of MethodMatchType.exact m = Option.map (λ p. PathMatch.exact p) (exact_path m)
method_path_of MethodMatchType.regular m =
    if is_empty m.service then none else some (PathMatch.prefix (b'/' ∷ m.service ++ codes "/"))

abbrev pub method_path : Option MethodMatch → Option PathMatch
method_path none = none
method_path (some m) = method_path_of m.match_type m

unfoldable pub grpc_match_to_route_match : GrpcRouteMatch → RouteMatch
grpc_match_to_route_match m = record {
  path = method_path m.method;
  headers = m.headers;
  query_params = [];
  method = none;
}

unfoldable pub build_ir_rule_from_grpc : GrpcRouteRule → Ir.RequestMatch → ℕ → Option Str → Ir.Rule
build_ir_rule_from_grpc rule req_match rule_idx client_cert_id = record {
  matches = req_match ∷ [];
  action = Ir.Action.route (record {
    backends = map weighted_backend rule.backends;
    timeout = none;
    request_filters = (apply_header_filters rule.filters).0;
    response_filters = (apply_header_filters rule.filters).1;
    mirror_backends = [];
    mirror_fractions = [];
    cache = none;
    body_rewrites = [];
    auth = none;
    websocket = false;
    disable_https_redirect = true;
    client_cert_id = client_cert_id;
  });
  rule_order = rule_idx;
}

abbrev pub grpc_request_match : GrpcRouteMatch → Ir.RequestMatch
grpc_request_match m = request_match (grpc_match_to_route_match m)

unfoldable pub translate_grpc_rule_to_ir : GrpcRouteRule → ℕ → Bool → Option Str → List Ir.Rule
unfolding build_ir_rule_from_grpc
translate_grpc_rule_to_ir rule rule_idx programmed client_cert_id =
    if programmed
    then map (λ m. build_ir_rule_from_grpc rule m rule_idx client_cert_id)
        (matches_or_default grpc_request_match rule.matches)
    else map (unprogrammed_rule rule_idx) (matches_or_default grpc_request_match rule.matches)
