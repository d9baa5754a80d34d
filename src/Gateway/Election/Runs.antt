-- ===== src/Gateway/Election/Runs.antt =====
-- What holds of an election after any run of its operations, one at a time.
use proxy.Common.{◌≡◌, refl, sym, Bool, true, false, not, arith, if◌then◌else◌, if_intro, ◌⊎◌, ◌∙◌}
use proxy.Gateway.Election.{
  LeaderState, Election, new, handle_patch_result, leads, token, drop_token,
}

-- One operation: the outcome of a patch, a call of `token`, the drop of a token.
pub data Step : Election → Election → Type 0 where
  patch : (e : Election) (patched : Bool) → Step e (handle_patch_result patched e)
  call_token : (e : Election) → Step e ((token e).1)
  drop : (e : Election) → Step e (drop_token e)

pub data Reach (e : Election) : Election → Type 0 where
  here : Reach e e
  next : {f g : Election} → Reach e f → Step f g → Reach e g

-- The published state is the task's, and a valid token means leadership.
pub record IsConsistent (e : Election) : Type 0 where
  pub published : leads e.state ≡ e.is_leader
  pub token_safe : (if e.token_valid then e.is_leader else true) ≡ true

handle_patch_result-IsConsistent :
    (patched : Bool) (e : Election) → IsConsistent e → IsConsistent (handle_patch_result patched e)
unfolding handle_patch_result
handle_patch_result-IsConsistent true e k =
    if_intro IsConsistent (not e.is_leader)
      (record { is_leader = true; token_valid = true; state = LeaderState.leader }) e
      (λ h. record { published = refl; token_safe = refl }) (λ h. k)
handle_patch_result-IsConsistent false e k =
    if_intro IsConsistent e.is_leader
      (record { is_leader = false; token_valid = false; state = LeaderState.not_leader }) e
      (λ h. record { published = refl; token_safe = refl }) (λ h. k)

token-IsConsistent : (e : Election) → IsConsistent e → IsConsistent ((token e).1)
unfolding token
token-IsConsistent e k =
    if_intro (λ (r : Bool × Election). IsConsistent (r.1)) (leads e.state) _ (false, e)
      (λ h. record { published = k.published; token_safe = sym k.published ∙ h }) (λ h. k)

Step-IsConsistent : {e f : Election} → Step e f → IsConsistent e → IsConsistent f
unfolding drop_token
Step-IsConsistent (patch e patched) k = handle_patch_result-IsConsistent patched e k
Step-IsConsistent (call_token e) k = token-IsConsistent e k
Step-IsConsistent (drop e) k = record { published = k.published; token_safe = refl }

pub Reach-IsConsistent : {e f : Election} → IsConsistent e → Reach e f → IsConsistent f
Reach-IsConsistent k here = k
Reach-IsConsistent k (next r st) = Step-IsConsistent st (Reach-IsConsistent k r)

new-IsConsistent : IsConsistent new
new-IsConsistent = record { published = refl; token_safe = refl }

-- After any run from the start in which the operations do not interleave, either no token says that
-- it is valid or the task leads, and `token` gives a token exactly when the task leads.
pub token_held_by_leader :
    (e : Election)
    → Reach new e
    → ((e.token_valid ≡ false) ⊎ (e.is_leader ≡ true)) × ((token e).0 ≡ e.is_leader)
unfolding token
token_held_by_leader e r =
    let k = Reach-IsConsistent new-IsConsistent r in
    let p = k.published in let t = k.token_safe in (ground (arith, t), ground (arith, p))
