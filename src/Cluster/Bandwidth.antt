-- ===== src/Cluster/Bandwidth.antt =====
-- src/cluster/bandwidth.rs: the counters of a node, the totals over its peers, and the sliding
-- window behind the limiter. Times are nanoseconds, counters are 64 bits wide, and floating point
-- is a parameter.
pub mod Peers
pub mod Window
mod Examples
use proxy.Common.{
  ℕ, ◌+◌, ◌-◌, ◌*◌, ◌%◌, ◌^◌, min, Bool, true, false, List, [], ◌∷◌, ◌++◌, if◌then◌else◌, ltb, leb,
  ◌==◌, length, filter, suc,
}
use proxy.Common.HashMap.{insert}
use proxy.Common.Text.{Str}

abbrev pub u64_mod : ℕ
u64_mod = 18446744073709551616

-- `AtomicU64::fetch_add` wraps round.
abbrev pub fetch_add : ℕ → ℕ → ℕ
fetch_add a b = (a + b) % u64_mod

unfoldable pub saturating_add : ℕ → ℕ → ℕ
saturating_add a b = min (a + b) (u64_mod - 1)

abbrev pub second : ℕ
second = 1000000000

pub record BandwidthTracker : Type 0 where
  pub bytes_in : ℕ
  pub bytes_out : ℕ
  pub request_count : ℕ
  pub cumulative_in : ℕ
  pub cumulative_out : ℕ

abbrev pub new_tracker : BandwidthTracker
new_tracker = record {
  bytes_in = 0;
  bytes_out = 0;
  request_count = 0;
  cumulative_in = 0;
  cumulative_out = 0;
}

-- `BandwidthTracker::record`.
unfoldable pub count_request : ℕ → ℕ → BandwidthTracker → BandwidthTracker
count_request incoming outgoing t = record {
  bytes_in = fetch_add t.bytes_in incoming;
  bytes_out = fetch_add t.bytes_out outgoing;
  request_count = fetch_add t.request_count 1;
  cumulative_in = fetch_add t.cumulative_in incoming;
  cumulative_out = fetch_add t.cumulative_out outgoing;
}

pub record BandwidthSnapshot : Type 0 where
  pub bytes_in : ℕ
  pub bytes_out : ℕ
  pub request_count : ℕ
  pub cumulative_in : ℕ
  pub cumulative_out : ℕ

unfoldable pub snapshot_and_reset : BandwidthTracker → BandwidthSnapshot × BandwidthTracker
snapshot_and_reset t = (
  record {
    bytes_in = t.bytes_in;
    bytes_out = t.bytes_out;
    request_count = t.request_count;
    cumulative_in = t.cumulative_in;
    cumulative_out = t.cumulative_out;
  },
  record t { bytes_in = 0; bytes_out = 0; request_count = 0 },
)

pub record PeerEntry : Type 0 where
  pub cumulative_in : ℕ
  pub cumulative_out : ℕ
  pub last_seen : ℕ

pub record ClusterBandwidthState : Type 0 where
  pub peers : List (Str × PeerEntry)
  pub total_bytes_in : ℕ
  pub total_bytes_out : ℕ
  pub peer_count : ℕ
  pub stale_timeout_secs : ℕ

abbrev pub new_state : ℕ → ClusterBandwidthState
new_state timeout = record {
  peers = [];
  total_bytes_in = 0;
  total_bytes_out = 0;
  peer_count = 0;
  stale_timeout_secs = timeout;
}

-- The loop of `recalculate`, with its two totals.
unfoldable pub add_totals : List (Str × PeerEntry) → ℕ → ℕ → ℕ × ℕ
unfolding saturating_add
add_totals [] total_in total_out = (total_in, total_out)
add_totals ((k, e) ∷ rest) total_in total_out =
    add_totals rest (saturating_add total_in e.cumulative_in)
      (saturating_add total_out e.cumulative_out)

unfoldable pub recalculate : List (Str × PeerEntry) → ClusterBandwidthState → ClusterBandwidthState
unfolding add_totals
recalculate peers s = record s {
  peers = peers;
  total_bytes_in = (add_totals peers 0 0).0;
  total_bytes_out = (add_totals peers 0 0).1;
  peer_count = length peers;
}

unfoldable pub update_peer : ℕ → Str → ℕ → ℕ → ClusterBandwidthState → ClusterBandwidthState
unfolding recalculate
update_peer now peer_id incoming outgoing s =
    let entry : PeerEntry = record {
      cumulative_in = incoming;
      cumulative_out = outgoing;
      last_seen = now;
    } in
    recalculate (insert peer_id entry s.peers) s

-- Whether a peer has reported within the timeout.
abbrev pub is_fresh : ℕ → ℕ → PeerEntry → Bool
is_fresh now timeout e = ltb now (e.last_seen + timeout * second)

unfoldable pub evict_stale : ℕ → ClusterBandwidthState → ClusterBandwidthState
unfolding recalculate
evict_stale now s = recalculate (filter (λ e. is_fresh now s.stale_timeout_secs e.1) s.peers) s

pub record Sample : Type 0 where
  pub time : ℕ
  pub bytes_in : ℕ
  pub bytes_out : ℕ

pub record BandwidthMeter : Type 0 where
  pub samples : List Sample
  pub window : ℕ

abbrev pub new_meter : ℕ → BandwidthMeter
new_meter window_secs = record { samples = []; window = window_secs * second }

-- `pop_front` while the front sample is older than the window.
unfoldable pub pop_old : ℕ → ℕ → List Sample → List Sample
pop_old now window [] = []
pop_old now window (s ∷ rest) =
    let popped = pop_old now window rest in if ltb (s.time + window) now then popped else s ∷ rest

-- `record_sample`, with the sample that it makes of the time and the two counts.
unfoldable pub record_sample : Sample → BandwidthMeter → BandwidthMeter
unfolding pop_old
record_sample s m = record m { samples = pop_old s.time m.window (m.samples ++ s ∷ []) }

-- The loop of `aggregate_rate`: bytes in, bytes out and the number of samples.
unfoldable pub add_samples : ℕ → ℕ → List Sample → ℕ → ℕ → ℕ → ℕ × ℕ × ℕ
unfolding saturating_add
add_samples now window [] total_in total_out count = (total_in, total_out, count)
add_samples now window (s ∷ rest) total_in total_out count =
    let added =
      add_samples now window rest (saturating_add total_in s.bytes_in)
        (saturating_add total_out s.bytes_out) (suc count) in
    let skipped = add_samples now window rest total_in total_out count in
    if leb now (s.time + window) then added else skipped

-- `f64`: conversion of an integer, seconds of a duration, quotient, sum and order.
pub record Floats : Type 1 where
  pub F : Type 0
  pub of_int : ℕ → F
  pub as_secs : ℕ → F
  pub quotient : F → F → F
  pub plus : F → F → F
  pub greater : F → F → Bool

pub data BandwidthLimitResult : Type 0 where
  allow : BandwidthLimitResult
  reject : BandwidthLimitResult

pub record BandwidthLimiter : Type 0 where
  pub limit_bytes_per_sec : ℕ
  pub meter : BandwidthMeter

module _ (f : Floats) where
  open f use {F, of_int, as_secs, quotient, plus, greater}

  pub record AggregateRate : Type 0 where
    pub bytes_in_per_sec : F
    pub bytes_out_per_sec : F
    pub total_per_sec : F
    pub sample_count : ℕ

  -- The end of `aggregate_rate`: the rates of the totals.
  unfoldable pub rates : ℕ → ℕ × ℕ × ℕ → AggregateRate
  rates window (total_in, total_out, count) =
      let incoming = quotient (of_int total_in) (as_secs window) in
      let outgoing = quotient (of_int total_out) (as_secs window) in
      record {
        bytes_in_per_sec = incoming;
        bytes_out_per_sec = outgoing;
        total_per_sec = plus incoming outgoing;
        sample_count = count;
      }

  unfoldable pub aggregate_rate : ℕ → BandwidthMeter → AggregateRate
  unfolding add_samples rates
  aggregate_rate now m = rates m.window (add_samples now m.window m.samples 0 0 0)

  abbrev pub decide : ℕ → AggregateRate → BandwidthLimitResult
  decide limit r =
      if greater r.total_per_sec (of_int limit)
      then BandwidthLimitResult.reject
      else BandwidthLimitResult.allow

  unfoldable pub check : ℕ → BandwidthLimiter → BandwidthLimitResult
  unfolding aggregate_rate
  check now l =
      if l.limit_bytes_per_sec == 0
      then BandwidthLimitResult.allow
      else decide l.limit_bytes_per_sec (aggregate_rate now l.meter)

-- `BandwidthLimiter::set_limit`.
abbrev pub set_limit : ℕ → BandwidthLimiter → BandwidthLimiter
set_limit bytes_per_sec l = record l { limit_bytes_per_sec = bytes_per_sec }
