-- ===== src/Gateway/Notify/Examples.antt =====
-- A peer tells of a resource, two ticks pass, and the resource changes here too.
use proxy.Common.{◌≡◌, refl, none, List, [], ◌∷◌, if◌then◌else◌, is_some_and, arith}
use proxy.Common.KeyMap.{get, insert}
use proxy.Common.Text.{codes, str_eq}
use proxy.Common.Signed.{I64}
use proxy.Gateway.Notify.{
  GatewayResourceNotify, key_of, key_eq, NotifyEvent, within, handle_local, handle_peer, prune,
  Input, peer, tick, run, step,
}
use proxy.Gateway.Notify.History.{last_told, handle_local-run}

abbrev web : GatewayResourceNotify
web = record {
  topic_version = 1;
  kind = codes "HTTPRoute";
  namespace = codes "default";
  name = codes "web";
  generation = I64.pos 7;
  timestamp = 1700000000;
}

abbrev inputs : List Input
inputs = peer 0 web ∷ tick 1000000000 ∷ peer 1500000000 web ∷ tick 2000000000 ∷ []

handle_local-run_example :
    handle_local 2400000000 web (run inputs []).1
    ≡ NotifyEvent.broadcast web
      ∷ (if is_some_and (within 2400000000) (last_told (key_of web) none inputs)
          then []
          else NotifyEvent.trigger_reconcile ∷ [])
handle_local-run_example = handle_local-run 2400000000 web inputs (omega arith)

debounced : handle_local 2400000000 web (run inputs []).1 ≡ NotifyEvent.broadcast web ∷ []
unfolding handle_local run step handle_peer prune get insert key_eq str_eq
debounced = refl

not_debounced :
    handle_local 2500000000 web (run inputs []).1
    ≡ NotifyEvent.broadcast web ∷ NotifyEvent.trigger_reconcile ∷ []
unfolding handle_local run step handle_peer prune get insert key_eq str_eq
not_debounced = refl
