-- ===== src/Gateway/Election.antt =====
-- src/gateway/election.rs: leadership by a lease. A patch of the lease either succeeds or fails; what
-- the lease says and when it is patched is the cluster's.
pub mod Runs
mod Examples
use proxy.Common.{Bool, true, false, not, ◌&&◌, Option, none, some, List, [], ◌∷◌, if◌then◌else◌}

pub data LeaderState : Type 0 where
  leader : LeaderState
  not_leader : LeaderState

-- The variables that the loop's task, the `Election` and its tokens share: the task's `is_leader`,
-- the flag `token_valid` and the last value sent on the watch channel.
pub record Election : Type 0 where
  pub is_leader : Bool
  pub token_valid : Bool
  pub state : LeaderState

-- `Election::new`.
abbrev pub new : Election
new = record { is_leader = false; token_valid = false; state = LeaderState.not_leader }

-- `handle_patch_result`, where `patched` says whether the patch succeeded.
unfoldable pub handle_patch_result : Bool → Election → Election
handle_patch_result true e =
    if not e.is_leader
    then record { is_leader = true; token_valid = true; state = LeaderState.leader }
    else e
handle_patch_result false e =
    if e.is_leader
    then record { is_leader = false; token_valid = false; state = LeaderState.not_leader }
    else e

abbrev pub leads : LeaderState → Bool
leads LeaderState.leader = true
leads LeaderState.not_leader = false

-- `Election::token`: whether a token is given, and the election after it.
unfoldable pub token : Election → Bool × Election
token e = if leads e.state then (true, record e { token_valid = true }) else (false, e)

-- `LeaderToken::drop`.
unfoldable pub drop_token : Election → Election
drop_token e = record e { token_valid = false }

-- `LeaderToken::is_leader`, of any token.
abbrev pub token-is_leader : Election → Bool
token-is_leader e = e.token_valid

-- The same by single reads and writes of the shared variables: the task's when it loses the lease,
-- and the two of `token`, whose reader keeps what it saw.
pub data Access : Type 0 where
  task_stops_leading task_clears_token task_publishes : Access
  caller_reads caller_validates : Access

pub record Shared : Type 0 where
  pub election : Election
  pub seen : LeaderState

unfoldable pub access : Access → Shared → Shared
access task_stops_leading s = record s { election = record s.election { is_leader = false } }
access task_clears_token s = record s { election = record s.election { token_valid = false } }
access task_publishes s = record s {
  election = record s.election { state = LeaderState.not_leader };
}
access caller_reads s = record s { seen = s.election.state }
access caller_validates s =
    if leads s.seen then record s { election = record s.election { token_valid = true } } else s

unfoldable pub run : List Access → Shared → Shared
unfolding access
run [] s = s
run (a ∷ rest) s = run rest (access a s)
