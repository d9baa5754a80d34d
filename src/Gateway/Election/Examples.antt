-- ===== src/Gateway/Election/Examples.antt =====
-- A run of an election, and an interleaving of `token` with the loss of the lease.
use proxy.Common.{◌≡◌, refl, ◌⊎◌, true, false, [], ◌∷◌}
use proxy.Gateway.Election.{
  LeaderState, Election, new, handle_patch_result, token, Access, Shared, run, access,
}
use proxy.Gateway.Election.Runs.{Reach, here, next, patch, call_token, token_held_by_leader}

abbrev leading : Election
leading = record { is_leader = true; token_valid = true; state = LeaderState.leader }

leads_after : Reach new leading
unfolding handle_patch_result token
leads_after = next (next here (patch new true)) (call_token leading)

token_held_by_leader_example :
    ((leading.token_valid ≡ false) ⊎ (leading.is_leader ≡ true))
    × ((token leading).0 ≡ leading.is_leader)
token_held_by_leader_example = token_held_by_leader leading leads_after

-- The caller of `token` reads the state before the lease is lost, and validates the flag after.
abbrev stale : Shared
stale =
    run
      (Access.caller_reads ∷ Access.task_stops_leading ∷ Access.task_clears_token
        ∷ Access.task_publishes ∷ Access.caller_validates ∷ [])
      (record { election = leading; seen = LeaderState.not_leader })

stale_token_valid : stale.election.token_valid ≡ true
unfolding run access
stale_token_valid = refl

stale_not_leader : stale.election.is_leader ≡ false
unfolding run access
stale_not_leader = refl
