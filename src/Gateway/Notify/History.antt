-- ===== src/Gateway/Notify/History.antt =====
-- The map that is pruned on every tick answers as the whole history of the peers would.
use proxy.Common.{
  inl, inr, ℕ, ◌≤◌, ◌≡◌, refl, ap, ◌∙◌, Bool, false, Option, none, some, List, [], ◌∷◌,
  if◌then◌else◌, filter, is_some_and, Bool-cases, arith, All,
}
use proxy.Common.KeyMap.{get, insert, has, has-insert}
use proxy.Gateway.Notify.{
  GatewayResourceNotify, ResourceKey, key_of, key_eq, key_eq_iff, NotifyEvent, Debounce, within,
  handle_local, handle_peer, prune, Input, local, peer, tick, step, run,
}

-- When a peer last told of a resource, in a history, or else before it.
pub last_told : ResourceKey → Option ℕ → List Input → Option ℕ
last_told k before [] = before
last_told k before (local now n ∷ rest) = last_told k before rest
last_told k before (peer now n ∷ rest) =
    last_told k (if key_eq (key_of n) k then some now else before) rest
last_told k before (tick now ∷ rest) = last_told k before rest

abbrev pub time_of : Input → ℕ
time_of (local now n) = now
time_of (peer now n) = now
time_of (tick now) = now

abbrev IsUnique : Debounce → Type 0
IsUnique [] = Unit
IsUnique ((k, t) ∷ m) = (has key_eq k m ≡ false) × IsUnique m

has-filter :
    (p : ResourceKey × ℕ → Bool) (k : ResourceKey) (m : Debounce)
    → has key_eq k m ≡ false
    → has key_eq k (filter p m) ≡ false
unfolding has
has-filter p k [] h = refl
has-filter p k (e ∷ m) h = ground (arith, has-filter p k m)

filter-IsUnique : (p : ResourceKey × ℕ → Bool) (m : Debounce) → IsUnique m → IsUnique (filter p m)
filter-IsUnique p [] u = tt
filter-IsUnique p ((k, t) ∷ m) (h, u) = elim (Bool-cases (p (k, t))) [
  | inl e ↦ rw e (has-filter p k m h, filter-IsUnique p m u)
  | inr e ↦ rw e (filter-IsUnique p m u)
]

insert-IsUnique :
    (k : ResourceKey) (t : ℕ) (m : Debounce) → IsUnique m → IsUnique (insert key_eq k t m)
unfolding insert
insert-IsUnique k t [] u = (unfold has in refl, tt)
insert-IsUnique k t ((j, s) ∷ m) (h, u) = elim (Bool-cases (key_eq j k)) [
  | inl e ↦ rw e (h, u)
  | inr e ↦ rw e (
    ground (arith, has-insert key_eq key_eq_iff k j t m, key_eq_iff j k, key_eq_iff k j, h),
    insert-IsUnique k t m u,
  )
]

get-insert :
    (k j : ResourceKey) (t : ℕ) (m : Debounce)
    → get key_eq j (insert key_eq k t m) ≡ (if key_eq k j then some t else get key_eq j m)
unfolding get insert
get-insert k j t [] = ground arith
get-insert k j t ((i, s) ∷ m) =
    ground (arith, key_eq_iff i k, key_eq_iff i j, key_eq_iff k j, get-insert k j t m)

get-none : (k : ResourceKey) (m : Debounce) → has key_eq k m ≡ false → get key_eq k m ≡ none
unfolding get has
get-none k [] h = refl
get-none k ((j, t) ∷ m) h = ground (arith, get-none k m)

-- At a later time, pruning is not seen.
prune-within :
    (now at : ℕ) (k : ResourceKey) (m : Debounce)
    → at ≤ now
    → IsUnique m
    → is_some_and (within now) (get key_eq k (prune at m))
      ≡ is_some_and (within now) (get key_eq k m)
unfolding prune get
prune-within now at k [] h u = refl
prune-within now at k ((j, t) ∷ m) h (new, u) =
    ground (arith, prune-within now at k m, get-none k m, key_eq_iff j k, new)

module _ (now : ℕ) (k : ResourceKey) where
  run-within :
      (inputs : List Input) (seen : Debounce) (before : Option ℕ)
      → All (λ i. time_of i ≤ now) inputs
      → IsUnique seen
      → is_some_and (within now) (get key_eq k seen) ≡ is_some_and (within now) before
      → is_some_and (within now) (get key_eq k (run inputs seen).1)
        ≡ is_some_and (within now) (last_told k before inputs)
  unfolding run last_told step handle_peer
  run-within [] seen before h u e = e
  run-within (local at n ∷ rest) seen before h u e = run-within rest seen before h.1 u e
  run-within (tick at ∷ rest) seen before h u e =
      run-within rest (prune at seen) before h.1
        (unfold prune in filter-IsUnique (λ x. within at x.1) seen u)
        (prune-within now at k seen h.0 u ∙ e)
  run-within (peer at n ∷ rest) seen before h u e =
      run-within rest (insert key_eq (key_of n) at seen)
        (if key_eq (key_of n) k then some at else before) h.1 (insert-IsUnique (key_of n) at seen u)
        (ground (arith, get-insert (key_of n) k at seen, e))

-- After any run of local events, peer events and ticks, none of them later than now, a local event is
-- broadcast, and starts a reconcile exactly when the last peer event of its resource in the whole run
-- is not within the last second: what the ticks forget does not matter.
pub handle_local-run :
    (now : ℕ) (n : GatewayResourceNotify) (inputs : List Input)
    → All (λ i. time_of i ≤ now) inputs
    → handle_local now n (run inputs []).1
      ≡ NotifyEvent.broadcast n
        ∷ (if is_some_and (within now) (last_told (key_of n) none inputs)
            then []
            else NotifyEvent.trigger_reconcile ∷ [])
unfolding handle_local
handle_local-run now n inputs h =
    let e = run-within now (key_of n) inputs [] none h tt (unfold get in refl) in
    ap
      (λ (b : Bool).
        NotifyEvent.broadcast n ∷ (if b then [] else NotifyEvent.trigger_reconcile ∷ []))
      e
