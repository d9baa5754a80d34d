-- ===== src/Gateway/Watchdog/Examples.antt =====
-- One run of the watchdog: a reconciler that panics, and one that waits.
use proxy.Common.{ℕ, ◌+◌, ◌*◌, ◌≤◌, ◌<◌, ◌≡◌, refl, ◌⊎◌, true, [], ◌∷◌}
use proxy.Common.KeyMap.{get, insert, remove, has}
use proxy.Common.Text.{codes, str_eq}
use proxy.Common.Signed.{I64, i64_eq}
use proxy.Gateway.Watchdog.{
  ReconcileKey, poisoned, Restart, Watchdog, new, spawn, tick, abort_all, key_eq, run_due, drain,
  handle_panic, recent_panics, millisecond,
}
use proxy.Gateway.Watchdog.Supervision.{supervised, tick_keeps_supervised}
use proxy.Gateway.Watchdog.Deadlines.{tick_deadlines}
use mathlib.Core.List.{Memᴰ}

-- The runtime numbers the tasks that it starts.
abbrev start : ℕ → ℕ → ℕ × ℕ
start r f = (r, r + 1)

abbrev web : ReconcileKey
web = record { namespace = codes "default"; name = codes "web"; generation = I64.pos 1 }

abbrev api : ReconcileKey
api = record { namespace = codes "default"; name = codes "api"; generation = I64.negsuc 0 }

-- Both run; the first has panicked, the second twice before.
abbrev busy : Watchdog ℕ ℕ ℕ
busy = record (spawn start api 8 (spawn start web 7 (new start 0))) {
  panics = web ∷ api ∷ [];
  budget = (api, 100 ∷ 200 ∷ []) ∷ [];
}

web_runs : supervised web busy ≡ true
unfolding spawn insert has key_eq i64_eq str_eq
web_runs = refl

tick_keeps_supervised_example :
    (supervised web (tick start 300 busy).1 ≡ true) ⊎ Memᴰ (poisoned web) (tick start 300 busy).0
tick_keeps_supervised_example = tick_keeps_supervised start 300 web busy web_runs

abbrev web_restart : Restart ℕ
web_restart = record { key = web; factory = 7; due = 50000300 }

web_waits : Memᴰ web_restart (tick start 300 busy).1.pending_restarts
unfolding tick run_due drain handle_panic recent_panics spawn insert get remove key_eq i64_eq str_eq
web_waits = Memᴰ.head refl

tick_deadlines_example :
    (300 < 50000300)
    × (Memᴰ web_restart busy.pending_restarts ⊎ (50000300 ≤ 300 + 100 * millisecond))
tick_deadlines_example = tick_deadlines start 300 busy web_restart web_waits

-- The third panic within the window ends the task.
api_poisoned : (tick start 300 busy).0 ≡ poisoned api ∷ []
unfolding tick run_due drain handle_panic recent_panics spawn insert get remove key_eq i64_eq str_eq
api_poisoned = refl

-- On shutdown the tasks are aborted in the order of the map, and nothing waits.
all_aborted : (abort_all start busy).0 ≡ 0 ∷ 1 ∷ []
unfolding abort_all spawn insert key_eq i64_eq str_eq
all_aborted = refl
