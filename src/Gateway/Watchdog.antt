-- ===== src/Gateway/Watchdog.antt =====
-- src/gateway/watchdog.rs: the supervisor of the reconciler's tasks. Times are nanoseconds, the
-- panics that wait in the channel are a list of keys, and the runtime, which starts a task and gives
-- its handle, is a parameter.
pub mod Supervision
pub mod Deadlines
mod Examples
use proxy.Common.{
  ℕ, ◌+◌, ◌-◌, ◌*◌, ◌^◌, Bool, true, false, ◌&&◌, ◌||◌, Option, none, some, List, [], ◌∷◌, ◌++◌,
  if◌then◌else◌, leb, ltb, ◌==◌, length, filter, map, unwrap_or, any, ◌≡◌, ◌↔◌, refl, arith,
}
use proxy.Common.KeyMap.{get, insert, remove}
use proxy.Common.Signed.{I64, i64_eq, i64_eq_iff}
use proxy.Common.Text.{Str, str_eq, str_eq_iff}

pub record ReconcileKey : Type 0 where
  pub namespace : Str
  pub name : Str
  pub generation : I64

unfoldable pub key_eq : ReconcileKey → ReconcileKey → Bool
unfolding i64_eq
key_eq a b =
    str_eq a.namespace b.namespace && str_eq a.name b.name && i64_eq a.generation b.generation

pub key_eq_iff : (a b : ReconcileKey) → (key_eq a b ≡ true) ↔ (a ≡ b)
unfolding key_eq
key_eq_iff a b = ground (
  arith,
  str_eq_iff a.namespace b.namespace,
  str_eq_iff a.name b.name,
  i64_eq_iff a.generation b.generation,
)

pub data WatchdogOutcome : Type 0 where
  poisoned : ReconcileKey → WatchdogOutcome

pub record TaskState (Factory Handle : Type 0) : Type 0 where
  pub abort : Handle
  pub factory : Factory

-- An entry of `pending_restarts`.
pub record Restart (Factory : Type 0) : Type 0 where
  pub key : ReconcileKey
  pub factory : Factory
  pub due : ℕ

pub record Watchdog (Factory Handle Runtime : Type 0) : Type 0 where
  pub runtime : Runtime
  pub tasks : List (ReconcileKey × TaskState Factory Handle)
  pub panics : List ReconcileKey
  pub budget : List (ReconcileKey × List ℕ)
  pub pending_restarts : List (Restart Factory)

abbrev pub millisecond : ℕ
millisecond = 1000000

-- The window of sixty seconds.
abbrev pub panic_window : ℕ
panic_window = 60000 * millisecond

abbrev pub panic_budget : ℕ
panic_budget = 3

-- The panics that still count, and the one of now.
unfoldable pub recent_panics : ℕ → List ℕ → List ℕ
recent_panics now entries = filter (λ t. ltb (now - t) panic_window) entries ++ now ∷ []

abbrev pub backoff : ℕ → ℕ
backoff panics = 50 * millisecond * 2 ^ (panics - 1)

module _ {Factory Handle Runtime : Type 0} (start : Runtime → Factory → Handle × Runtime) where
  abbrev pub new : Runtime → Watchdog Factory Handle Runtime
  new r = record { runtime = r; tasks = []; panics = []; budget = []; pending_restarts = [] }

  -- `spawn` and `spawn_inner`.
  unfoldable pub spawn :
      ReconcileKey → Factory → Watchdog Factory Handle Runtime → Watchdog Factory Handle Runtime
  spawn k f w =
      let (handle, runtime) = start w.runtime f in
      record w {
        runtime = runtime;
        tasks = insert key_eq k (record { abort = handle; factory = f }) w.tasks;
      }

  abbrev pub wait_for :
      Restart Factory → Watchdog Factory Handle Runtime → Watchdog Factory Handle Runtime
  wait_for p w = record w { pending_restarts = p ∷ w.pending_restarts }

  -- The loop over `pending_restarts`: what is due is started, the rest keeps its order.
  unfoldable pub run_due :
      ℕ → List (Restart Factory) → Watchdog Factory Handle Runtime → Watchdog Factory Handle Runtime
  unfolding spawn
  run_due now [] w = record w { pending_restarts = [] }
  run_due now (p ∷ ps) w =
      let started = run_due now ps (spawn p.key p.factory w) in
      let waiting = wait_for p (run_due now ps w) in if leb p.due now then started else waiting

  -- The `else if let Some(wt) = self.tasks.remove(&key)`.
  abbrev pub schedule :
      ℕ
      → ReconcileKey
      → ℕ
      → Option (TaskState Factory Handle)
      → Watchdog Factory Handle Runtime
      → Watchdog Factory Handle Runtime
  schedule now k panics none w = w
  schedule now k panics (some t) w = record w {
    tasks = remove key_eq k w.tasks;
    pending_restarts =
        w.pending_restarts
        ++ record { key = k; factory = t.factory; due = now + backoff panics } ∷ [];
  }

  -- One panic signal.
  unfoldable pub handle_panic :
      ℕ
      → ReconcileKey
      → Watchdog Factory Handle Runtime
      → List WatchdogOutcome × Watchdog Factory Handle Runtime
  unfolding recent_panics
  handle_panic now k w =
      let entries = recent_panics now (unwrap_or [] (get key_eq k w.budget)) in
      let counted = record w { budget = insert key_eq k entries w.budget } in
      if leb panic_budget (length entries)
      then (poisoned k ∷ [], record counted { tasks = remove key_eq k counted.tasks })
      else ([], schedule now k (length entries) (get key_eq k counted.tasks) counted)

  -- The loop over the signals.
  unfoldable pub drain :
      ℕ
      → List ReconcileKey
      → Watchdog Factory Handle Runtime
      → List WatchdogOutcome × Watchdog Factory Handle Runtime
  unfolding handle_panic
  drain now [] w = ([], record w { panics = [] })
  drain now (k ∷ ks) w =
      let (first, w1) = handle_panic now k w in
      let (rest, w2) = drain now ks w1 in (first ++ rest, w2)

  unfoldable pub tick :
      ℕ → Watchdog Factory Handle Runtime → List WatchdogOutcome × Watchdog Factory Handle Runtime
  unfolding run_due drain
  tick now w = let w1 = run_due now w.pending_restarts w in drain now w1.panics w1

  -- `abort_all` and `drop`: the handles that are aborted, and the watchdog.
  unfoldable pub abort_all :
      Watchdog Factory Handle Runtime → List Handle × Watchdog Factory Handle Runtime
  abort_all w = (map (λ e. e.1.abort) w.tasks, record w { tasks = []; pending_restarts = [] })
