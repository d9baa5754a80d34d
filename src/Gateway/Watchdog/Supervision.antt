-- ===== src/Gateway/Watchdog/Supervision.antt =====
-- Which keys the watchdog supervises, through a tick.
use proxy.Common.{
  ℕ, ◌+◌, ◌≡◌, refl, ap, sym, ◌∙◌, ◌⊎◌, inl, inr, Bool, true, ◌||◌, Option, none, some, List, [],
  ◌∷◌, ◌++◌, leb, length, any, Bool-cases, if_intro, unwrap_or, arith, Memᴰ-append_left,
  Memᴰ-append_right,
}
use proxy.Common.KeyMap.{get, insert, remove, has, has-insert, has-remove}
use proxy.Gateway.Watchdog.{
  ReconcileKey, key_eq, key_eq_iff, WatchdogOutcome, poisoned, TaskState, Restart, Watchdog, spawn,
  run_due, schedule, handle_panic, drain, tick, recent_panics, panic_budget, backoff,
}
use mathlib.Core.List.{Memᴰ}

abbrev pub waits : {Factory : Type 0} → ReconcileKey → List (Restart Factory) → Bool
waits k ps = any (λ p. key_eq p.key k) ps

-- A key is supervised where its task runs or waits for its restart.
abbrev pub supervised :
    {Factory Handle Runtime : Type 0} → ReconcileKey → Watchdog Factory Handle Runtime → Bool
supervised k w = has key_eq k w.tasks || waits k w.pending_restarts

waits-append_one :
    {Factory : Type 0} (k : ReconcileKey) (ps : List (Restart Factory)) (p : Restart Factory)
    → waits k (ps ++ p ∷ []) ≡ (waits k ps || key_eq p.key k)
waits-append_one k [] p = ground arith
waits-append_one k (q ∷ ps) p = ground (arith, waits-append_one k ps p)

module _ {Factory Handle Runtime : Type 0} (start : Runtime → Factory → Handle × Runtime) where
  run_due-supervised :
      (now : ℕ) (k : ReconcileKey) (ps : List (Restart Factory))
      (w : Watchdog Factory Handle Runtime)
      → supervised k (run_due start now ps w) ≡ (has key_eq k w.tasks || waits k ps)
  unfolding run_due spawn
  run_due-supervised now k [] w = refl
  run_due-supervised now k (p ∷ ps) w =
      let task : TaskState Factory Handle = record {
        abort = (start w.runtime p.factory).0;
        factory = p.factory;
      } in
      ground (
        arith,
        run_due-supervised now k ps (spawn start p.key p.factory w),
        run_due-supervised now k ps w,
        has-insert key_eq key_eq_iff p.key k task w.tasks,
      )

  schedule-supervised :
      (now : ℕ) (j k : ReconcileKey) (panics : ℕ) (t : Option (TaskState Factory Handle))
      (w : Watchdog Factory Handle Runtime)
      → supervised k w ≡ true
      → supervised k (schedule start now j panics t w) ≡ true
  schedule-supervised now j k panics none w h = h
  schedule-supervised now j k panics (some t) w h =
      let p : Restart Factory = record {
        key = j;
        factory = t.factory;
        due = now + backoff panics;
      } in
      ground
        (arith, has-remove key_eq key_eq_iff j k w.tasks, waits-append_one k w.pending_restarts p)

  -- A signal takes no key out of supervision but the one that it poisons.
  handle_panic-supervised :
      (now : ℕ) (j k : ReconcileKey) (w : Watchdog Factory Handle Runtime)
      → supervised k w ≡ true
      → (supervised k (handle_panic start now j w).1 ≡ true)
        ⊎ Memᴰ (poisoned k) (handle_panic start now j w).0
  unfolding handle_panic
  handle_panic-supervised now j k w h =
      let entries = recent_panics now (unwrap_or [] (get key_eq j w.budget)) in
      let counted = record w { budget = insert key_eq j entries w.budget } in
      let stays : supervised k counted ≡ true = h in
      if_intro
        (λ (r : List WatchdogOutcome × Watchdog Factory Handle Runtime).
          (supervised k r.1 ≡ true) ⊎ Memᴰ (poisoned k) r.0)
        (leb panic_budget (length entries))
        (poisoned j ∷ [], record counted { tasks = remove key_eq j counted.tasks })
        ([], schedule start now j (length entries) (get key_eq j counted.tasks) counted)
        (λ e. elim (Bool-cases (key_eq j k)) [
          | inl same ↦ inr (Memᴰ.head (ap poisoned (sym ((key_eq_iff j k).0 same))))
          | inr other ↦ inl (ground (arith, has-remove key_eq key_eq_iff j k w.tasks, other, h))
        ])
        (λ e.
          inl (
            schedule-supervised now j k (length entries) (get key_eq j counted.tasks) counted
              stays))

  drain-supervised :
      (now : ℕ) (ks : List ReconcileKey) (k : ReconcileKey) (w : Watchdog Factory Handle Runtime)
      → supervised k w ≡ true
      → (supervised k (drain start now ks w).1 ≡ true) ⊎ Memᴰ (poisoned k) (drain start now ks w).0
  unfolding drain
  drain-supervised now [] k w h = inl (h)
  drain-supervised now (j ∷ ks) k w h = elim (handle_panic-supervised now j k w h) [
    | inr m ↦ inr (Memᴰ-append_left _ _ m)
    | inl s ↦ elim (drain-supervised now ks k (handle_panic start now j w).1 s) [
      | inl t ↦ inl t
      | inr m ↦ inr (Memᴰ-append_right _ _ m)
    ]
  ]

  -- A key whose task runs or waits before a tick runs or waits after it, unless the tick reports it
  -- as poisoned.
  pub tick_keeps_supervised :
      (now : ℕ) (k : ReconcileKey) (w : Watchdog Factory Handle Runtime)
      → supervised k w ≡ true
      → (supervised k (tick start now w).1 ≡ true) ⊎ Memᴰ (poisoned k) (tick start now w).0
  unfolding tick
  tick_keeps_supervised now k w h =
      let w1 = run_due start now w.pending_restarts w in
      drain-supervised now w1.panics k w1 (run_due-supervised now k w.pending_restarts w ∙ (h))
