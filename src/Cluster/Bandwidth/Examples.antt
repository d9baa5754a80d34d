-- ===== src/Cluster/Bandwidth/Examples.antt =====
-- Runs of the counters, the totals and the window.
use proxy.Common.{ℕ, ◌+◌, ◌*◌, ◌/◌, ◌-◌, ◌≡◌, refl, List, [], ◌∷◌, if◌then◌else◌, ltb, ◌==◌, arith}
use proxy.Common.HashMap.{insert}
use proxy.Common.Text.{codes, str_eq}
use proxy.Cluster.Bandwidth.{
  count_request, snapshot_and_reset, u64_mod, second, Sample, Floats, BandwidthLimitResult,
  new_tracker, ClusterBandwidthState, new_state, new_meter, update_peer, evict_stale, recalculate,
  add_totals, saturating_add, aggregate_rate, check, decide, record_sample, pop_old, add_samples,
  rates, set_limit,
}
use proxy.Cluster.Bandwidth.Peers.{Reach, here, next, report, evict}
use proxy.Cluster.Bandwidth.Window.{record_all, history_rates, meter_refines_history}

-- A request is counted in both counters, and a snapshot resets only those of the interval.
one_request : (snapshot_and_reset (count_request 100 200 new_tracker)).1.cumulative_in ≡ 100
unfolding snapshot_and_reset count_request
one_request = refl

interval_reset : (snapshot_and_reset (count_request 100 200 new_tracker)).1.bytes_in ≡ 0
unfolding snapshot_and_reset count_request
interval_reset = refl

-- One peer reports nearly as much as the counter holds, another too, and the first goes stale.
abbrev two_peers : ClusterBandwidthState
two_peers =
    update_peer (40 * second) (codes "b") 3 4
      (update_peer 0 (codes "a") (u64_mod - 2) 7 (new_state 30))

two_peers_reached : Reach (new_state 30) (evict_stale (41 * second) two_peers)
two_peers_reached =
    next
      (next (next here (report 0 (codes "a") (u64_mod - 2) 7 _))
        (report (40 * second) (codes "b") 3 4 _))
      (evict (41 * second) _)

total_saturates : two_peers.total_bytes_in ≡ u64_mod - 1
unfolding update_peer recalculate add_totals saturating_add insert str_eq
total_saturates = refl

stale_peer_evicted : (evict_stale (41 * second) two_peers).total_bytes_in ≡ 3
unfolding evict_stale update_peer recalculate add_totals saturating_add insert str_eq
stale_peer_evicted = refl

-- Whole numbers for the floating point.
abbrev whole : Floats
whole = record {
  F = ℕ;
  of_int = λ n. n;
  as_secs = λ t. t / second;
  quotient = λ a b. a / b;
  plus = λ a b. a + b;
  greater = λ a b. ltb b a;
}

abbrev three : List Sample
three =
    record { time = 0; bytes_in = 900; bytes_out = 900 }
    ∷ record { time = 20 * second; bytes_in = 600; bytes_out = 0 }
    ∷ record { time = 40 * second; bytes_in = 300; bytes_out = 300 }
    ∷ []

meter_refines_history_example :
    (aggregate_rate whole (41 * second) (record_all three (new_meter 30))
      ≡ history_rates whole (41 * second) (30 * second) three)
    × (check whole
          (41 * second)
          (record { limit_bytes_per_sec = 39; meter = record_all three (new_meter 30) })
        ≡ (if ◌==◌ 39 0
            then BandwidthLimitResult.allow
            else decide whole 39 (history_rates whole (41 * second) (30 * second) three)))
meter_refines_history_example = meter_refines_history whole (41 * second) 30 39 three (omega arith)

over_limit :
    check whole
      (41 * second)
      (record { limit_bytes_per_sec = 39; meter = record_all three (new_meter 30) })
    ≡ BandwidthLimitResult.reject
unfolding check aggregate_rate rates record_sample pop_old add_samples saturating_add
over_limit = refl

under_limit :
    check whole
      (41 * second)
      (set_limit 40 (record { limit_bytes_per_sec = 39; meter = record_all three (new_meter 30) }))
    ≡ BandwidthLimitResult.allow
unfolding check aggregate_rate rates record_sample pop_old add_samples saturating_add
under_limit = refl
