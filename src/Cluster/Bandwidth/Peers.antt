-- ===== src/Cluster/Bandwidth/Peers.antt =====
-- What the totals over the peers are after any run of reports and evictions.
use proxy.Common.{ℕ, ◌+◌, ◌-◌, ◌<◌, min, ◌≡◌, refl, List, [], ◌∷◌, length, arith}
use proxy.Common.Text.{Str}
use proxy.Cluster.Bandwidth.{
  u64_mod, saturating_add, PeerEntry, ClusterBandwidthState, new_state, add_totals, recalculate,
  update_peer, evict_stale,
}

abbrev pub sum_in : List (Str × PeerEntry) → ℕ
sum_in [] = 0
sum_in ((k, e) ∷ rest) = e.cumulative_in + sum_in rest

abbrev pub sum_out : List (Str × PeerEntry) → ℕ
sum_out [] = 0
sum_out ((k, e) ∷ rest) = e.cumulative_out + sum_out rest

add_totals-eq-sum :
    (peers : List (Str × PeerEntry)) (a b : ℕ)
    → a < u64_mod
    → b < u64_mod
    → ((add_totals peers a b).0 ≡ min (a + sum_in peers) (u64_mod - 1))
      × ((add_totals peers a b).1 ≡ min (b + sum_out peers) (u64_mod - 1))
unfolding add_totals saturating_add
add_totals-eq-sum [] a b h k = (omega arith, omega arith)
add_totals-eq-sum ((j, e) ∷ rest) a b h k =
    let (p, q) =
      add_totals-eq-sum rest (saturating_add a e.cumulative_in) (saturating_add b e.cumulative_out)
        (omega arith) (omega arith) in
    (omega (arith, p), omega (arith, q))

pub data Step : ClusterBandwidthState → ClusterBandwidthState → Type 0 where
  report :
      (now : ℕ) (peer_id : Str) (i o : ℕ) (s : ClusterBandwidthState)
      → Step s (update_peer now peer_id i o s)
  evict : (now : ℕ) (s : ClusterBandwidthState) → Step s (evict_stale now s)

pub data Reach (s : ClusterBandwidthState) : ClusterBandwidthState → Type 0 where
  here : Reach s s
  next : {t u : ClusterBandwidthState} → Reach s t → Step t u → Reach s u

-- The published numbers are those of the peers: saturated sums and their count.
pub record IsConsistent (s : ClusterBandwidthState) : Type 0 where
  pub incoming : s.total_bytes_in ≡ min (sum_in s.peers) (u64_mod - 1)
  pub outgoing : s.total_bytes_out ≡ min (sum_out s.peers) (u64_mod - 1)
  pub counted : s.peer_count ≡ length s.peers

recalculate-IsConsistent :
    (peers : List (Str × PeerEntry)) (s : ClusterBandwidthState)
    → IsConsistent (recalculate peers s)
unfolding recalculate
recalculate-IsConsistent peers s =
    let (p, q) = add_totals-eq-sum peers 0 0 (omega arith) (omega arith) in
    record { incoming = omega (arith, p); outgoing = omega (arith, q); counted = refl }

Step-IsConsistent : {s t : ClusterBandwidthState} → Step s t → IsConsistent t
unfolding update_peer evict_stale
Step-IsConsistent (report now peer_id i o s) = recalculate-IsConsistent _ s
Step-IsConsistent (evict now s) = recalculate-IsConsistent _ s

-- After any run of reports and evictions the totals are the sums over the peers that are left, at
-- most 2 ^ 64 - 1, and the count is their number.
pub Reach-IsConsistent :
    (timeout : ℕ) {s : ClusterBandwidthState} → Reach (new_state timeout) s → IsConsistent s
Reach-IsConsistent timeout here = record {
  incoming = omega arith;
  outgoing = omega arith;
  counted = refl;
}
Reach-IsConsistent timeout (next r st) = Step-IsConsistent st
