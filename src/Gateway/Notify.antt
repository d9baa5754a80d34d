-- ===== src/Gateway/Notify.antt =====
-- src/gateway/gossip/resource_notify.rs: which local events of a resource start a reconcile, where
-- peers tell of theirs. Times are nanoseconds.
pub mod History
mod Examples
use proxy.Common.{
  ℕ, ◌-◌, ◌*◌, Bool, true, false, ◌&&◌, Option, none, some, List, [], ◌∷◌, ◌++◌, if◌then◌else◌, ltb,
  filter, is_some_and, ◌≡◌, ◌↔◌, arith,
}
use proxy.Common.KeyMap.{get, insert}
use proxy.Common.Text.{Str, str_eq, str_eq_iff}
use proxy.Common.Signed.{I64}

abbrev pub debounce_window : ℕ
debounce_window = 1000000000

-- src/cluster/gateway_topics.rs.
pub record GatewayResourceNotify : Type 0 where
  pub topic_version : ℕ
  pub kind : Str
  pub namespace : Str
  pub name : Str
  pub generation : I64
  pub timestamp : ℕ

pub record ResourceKey : Type 0 where
  pub kind : Str
  pub namespace : Str
  pub name : Str

-- `ResourceKey::from`.
abbrev pub key_of : GatewayResourceNotify → ResourceKey
key_of n = record { kind = n.kind; namespace = n.namespace; name = n.name }

unfoldable pub key_eq : ResourceKey → ResourceKey → Bool
key_eq a b = str_eq a.kind b.kind && str_eq a.namespace b.namespace && str_eq a.name b.name

pub key_eq_iff : (a b : ResourceKey) → (key_eq a b ≡ true) ↔ (a ≡ b)
unfolding key_eq
key_eq_iff a b =
    ground (
      arith,
      str_eq_iff a.kind b.kind,
      str_eq_iff a.namespace b.namespace,
      str_eq_iff a.name b.name,
    )

pub data NotifyEvent : Type 0 where
  broadcast : GatewayResourceNotify → NotifyEvent
  trigger_reconcile : NotifyEvent

-- `peer_debounce`: when a peer last told of each resource.
abbrev pub Debounce : Type 0
Debounce = List (ResourceKey × ℕ)

abbrev pub within : ℕ → ℕ → Bool
within now t = ltb (now - t) debounce_window

unfoldable pub handle_local : ℕ → GatewayResourceNotify → Debounce → List NotifyEvent
handle_local now n seen =
    NotifyEvent.broadcast n
    ∷ (if is_some_and (within now) (get key_eq (key_of n) seen)
        then []
        else NotifyEvent.trigger_reconcile ∷ [])

unfoldable pub handle_peer : ℕ → GatewayResourceNotify → Debounce → List NotifyEvent × Debounce
handle_peer now n seen = (NotifyEvent.trigger_reconcile ∷ [], insert key_eq (key_of n) now seen)

-- The `retain` of a tick.
unfoldable pub prune : ℕ → Debounce → Debounce
prune now seen = filter (λ e. within now e.1) seen

-- What the loop of `run` receives, each with its time.
pub data Input : Type 0 where
  local : ℕ → GatewayResourceNotify → Input
  peer : ℕ → GatewayResourceNotify → Input
  tick : ℕ → Input

-- The loop of `run`: the events that it emits, and the map after them.
unfoldable pub step : Input → Debounce → List NotifyEvent × Debounce
unfolding handle_local handle_peer prune
step (local now n) seen = (handle_local now n seen, seen)
step (peer now n) seen = handle_peer now n seen
step (tick now) seen = ([], prune now seen)

unfoldable pub run : List Input → Debounce → List NotifyEvent × Debounce
unfolding step
run [] seen = ([], seen)
run (i ∷ rest) seen =
    let (first, seen1) = step i seen in
    let (later, seen2) = run rest seen1 in (first ++ later, seen2)
