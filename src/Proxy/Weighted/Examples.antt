-- ===== src/Proxy/Weighted/Examples.antt =====
-- Three backends with weights 2, 0 and 1.
use proxy.Common.{ℕ, ◌+◌, ◌%◌, ◌≤◌, ◌<◌, ◌≡◌, ◌≢◌, ◌↔◌, refl, none, some, List, [], ◌∷◌, arith}
use proxy.Common.Text.{codes}
use proxy.Ir.{BackendProtocol, WeightedBackend}
use proxy.Proxy.Weighted.{
  sum_weights, scan, pick_weighted_backend_ir_index, weight_before, weight_at, pick_weighted_shares,
}

abbrev backend : ℕ → WeightedBackend
backend weight = record {
  backend = codes "http://app";
  weight = weight;
  request_filters = [];
  protocol = BackendProtocol.http;
  tls = none;
}

abbrev three : List WeightedBackend
three = backend 2 ∷ backend 0 ∷ backend 1 ∷ []

three_weights : sum_weights three ≢ 0
unfolding sum_weights
three_weights = omega arith

pick_weighted_shares_example : ((pick_weighted_backend_ir_index 5 three).0 ≡ some 2) ↔ (
    (weight_before 2 three ≤ 5 % sum_weights three)
    × (5 % sum_weights three < weight_before 2 three + weight_at 2 three))
pick_weighted_shares_example = pick_weighted_shares 5 2 three three_weights

sixth_call : pick_weighted_backend_ir_index 5 three ≡ (some 2, 6)
unfolding pick_weighted_backend_ir_index scan sum_weights
sixth_call = refl
