-- ===== src/Gateway/Watchdog/Deadlines.antt =====
-- When the restarts that a tick leaves are due.
use proxy.Common.{
  ℕ, ◌+◌, ◌*◌, ◌≤◌, ◌<◌, zero, suc, ◌≡◌, refl, ◌⊎◌, inl, inr, not, Option, none, some, List, [],
  ◌∷◌, ◌++◌, leb, length, filter, filter_sound, length-append, if_intro, unwrap_or, arith, All,
  All-of, All-Memᴰ,
}
use proxy.Common.KeyMap.{get, insert, remove}
use proxy.Gateway.Watchdog.{
  ReconcileKey, key_eq, WatchdogOutcome, poisoned, TaskState, Restart, Watchdog, spawn, run_due,
  schedule, handle_panic, drain, tick, recent_panics, panic_budget, backoff, millisecond,
}
use mathlib.Core.List.{Memᴰ}

All-append_one :
    {A : Type 0} (P : A → Type 0) (xs : List A) (x : A) → All P xs → P x → All P (xs ++ x ∷ [])
All-append_one P [] x h p = (p, tt)
All-append_one P (y ∷ xs) x h p = (h.0, All-append_one P xs x h.1 p)

recent_panics-pos : (now : ℕ) (entries : List ℕ) → 1 ≤ length (recent_panics now entries)
unfolding recent_panics
recent_panics-pos now entries = omega (arith, length-append (filter _ entries) (now ∷ []))

backoff_bounds :
    (now n : ℕ)
    → 1 ≤ n
    → n < panic_budget
    → (now < now + backoff n) × (now + backoff n ≤ now + 100 * millisecond)
backoff_bounds now zero lo hi = elim lo [ ]
backoff_bounds now (suc zero) lo hi = (omega arith, omega arith)
backoff_bounds now (suc (suc zero)) lo hi = (omega arith, omega arith)
backoff_bounds now (suc (suc (suc n))) lo hi = absurd (omega arith)

module _ {Factory Handle Runtime : Type 0} (start : Runtime → Factory → Handle × Runtime) where
  run_due-pending_restarts :
      (now : ℕ) (ps : List (Restart Factory)) (w : Watchdog Factory Handle Runtime)
      → (run_due start now ps w).pending_restarts ≡ filter (λ p. not (leb p.due now)) ps
  unfolding run_due
  run_due-pending_restarts now [] w = refl
  run_due-pending_restarts now (p ∷ ps) w = ground (
    arith,
    run_due-pending_restarts now ps w,
    run_due-pending_restarts now ps (spawn start p.key p.factory w),
  )

  -- What all restarts have that were there or are scheduled after one panic or two.
  module _ (now : ℕ) (P : Restart Factory → Type 0)
      (fresh : (k : ReconcileKey) (f : Factory) (n : ℕ)
        → 1 ≤ n
        → n < panic_budget
        → P (record { key = k; factory = f; due = now + backoff n })) where
    schedule-All :
        (k : ReconcileKey) (n : ℕ) (t : Option (TaskState Factory Handle))
        (w : Watchdog Factory Handle Runtime)
        → 1 ≤ n
        → n < panic_budget
        → All P w.pending_restarts
        → All P (schedule start now k n t w).pending_restarts
    schedule-All k n none w lo hi h = h
    schedule-All k n (some t) w lo hi h =
        All-append_one P w.pending_restarts _ h (fresh k t.factory n lo hi)

    handle_panic-All :
        (k : ReconcileKey) (w : Watchdog Factory Handle Runtime)
        → All P w.pending_restarts
        → All P (handle_panic start now k w).1.pending_restarts
    unfolding handle_panic
    handle_panic-All k w h =
        let entries = recent_panics now (unwrap_or [] (get key_eq k w.budget)) in
        let counted = record w { budget = insert key_eq k entries w.budget } in
        if_intro
          (λ (r : List WatchdogOutcome × Watchdog Factory Handle Runtime).
            All P r.1.pending_restarts)
          (leb panic_budget (length entries))
          (poisoned k ∷ [], record counted { tasks = remove key_eq k counted.tasks })
          ([], schedule start now k (length entries) (get key_eq k counted.tasks) counted) (λ e. h)
          (λ e.
            schedule-All k (length entries) (get key_eq k counted.tasks) counted
              (recent_panics-pos now (unwrap_or [] (get key_eq k w.budget))) (ground arith) h)

    drain-All :
        (ks : List ReconcileKey) (w : Watchdog Factory Handle Runtime)
        → All P w.pending_restarts
        → All P (drain start now ks w).1.pending_restarts
    unfolding drain
    drain-All [] w h = h
    drain-All (k ∷ ks) w h = drain-All ks (handle_panic start now k w).1 (handle_panic-All k w h)

  -- What waits for its restart after a tick is due later than the tick, and either waited before it
  -- or is due within a hundred milliseconds of it.
  pub tick_deadlines :
      (now : ℕ) (w : Watchdog Factory Handle Runtime) (p : Restart Factory)
      → Memᴰ p (tick start now w).1.pending_restarts
      → (now < p.due) × (Memᴰ p w.pending_restarts ⊎ (p.due ≤ now + 100 * millisecond))
  unfolding tick
  tick_deadlines now w p m =
      let w1 = run_due start now w.pending_restarts w in
      let P : Restart Factory → Type 0 =
        λ q. (now < q.due) × (Memᴰ q w.pending_restarts ⊎ (q.due ≤ now + 100 * millisecond)) in
      let before : All P w1.pending_restarts =
        rw (run_due-pending_restarts now w.pending_restarts w) (
          All-of P _ (λ q k.
            let (in_w, late) = filter_sound (λ r. not (leb r.due now)) w.pending_restarts k in
            (ground (arith, late), inl in_w))) in
      All-Memᴰ P _
        (drain-All now P
          (λ k f n lo hi. let (after, soon) = backoff_bounds now n lo hi in (after, inr soon))
          w1.panics w1 before)
        m
