-- ===== src/Sse/Hub.antt =====
-- hub.go and notifying_store.go: wakes and short-lived events for the readers of a thread.
pub mod Delivery
use buat_postingan.Base.{
  ℕ, suc, String, Bool, true, false, List, [], ◌∷◌, ◌++◌, ltb, ◌==◌, ◌&&◌, not, str_eq, is_empty,
  length, if◌then◌else◌,
}
use buat_postingan.Exec.{Result, ok, err, Exec}
use buat_postingan.Json.{Payload}
use buat_postingan.Domain.{TranscriptItem, ThreadSnapshot}
use buat_postingan.Jsonl.Disk.{Os, World}
use buat_postingan.Jsonl.Store

-- `EphemeralEvent`
pub record EphemeralEvent : Type 0 where
  pub name : String
  pub payload : Payload

-- `hubSub`, with the number that tells it from the others: whether a wake waits in its channel,
-- and the events that wait in the other one, the oldest first.
pub record HubSub : Type 0 where
  pub number : ℕ
  pub key : String
  pub woken : Bool
  pub waiting : List EphemeralEvent

-- `Hub`: its subscriptions, and the number of the next one.
pub record Hub : Type 0 where
  pub subs : List HubSub
  pub next : ℕ

-- the capacity of the channel of events
abbrev pub ephemeral_capacity : ℕ
ephemeral_capacity = 64

-- `NewHub`
abbrev pub new_hub : Hub
new_hub = record { subs = []; next = 0 }

-- `Subscribe`: the number of the new subscription
unfoldable pub subscribe : String → Hub → ℕ × Hub
subscribe key h = (
  h.next,
  record {
    subs = record { number = h.next; key = key; woken = false; waiting = [] } ∷ h.subs;
    next = suc h.next;
  },
)

abbrev pub wake : String → HubSub → HubSub
wake key sub = if str_eq sub.key key then record sub { woken = true } else sub

unfoldable pub wake_all : String → List HubSub → List HubSub
wake_all key [] = []
wake_all key (sub ∷ subs) = wake key sub ∷ wake_all key subs

-- `Notify`
unfoldable pub notify : String → Hub → Hub
unfolding wake_all
notify key h = record h { subs = wake_all key h.subs }

-- An event is dropped where the channel is full.
abbrev pub offer : String → EphemeralEvent → HubSub → HubSub
offer key ev sub =
    if str_eq sub.key key && ltb (length sub.waiting) ephemeral_capacity
    then record sub { waiting = sub.waiting ++ ev ∷ [] }
    else sub

unfoldable pub offer_all : String → EphemeralEvent → List HubSub → List HubSub
offer_all key ev [] = []
offer_all key ev (sub ∷ subs) = offer key ev sub ∷ offer_all key ev subs

-- `PublishEphemeral`
unfoldable pub publish_ephemeral : String → String → Payload → Hub → Hub
unfolding offer_all
publish_ephemeral key name payload h =
    if is_empty name
    then h
    else record h { subs = offer_all key (record { name = name; payload = payload }) h.subs }

unfoldable pub without_sub : ℕ → List HubSub → List HubSub
without_sub n [] = []
without_sub n (sub ∷ subs) =
    let rest = without_sub n subs in if sub.number == n then rest else sub ∷ rest

-- `Close`
unfoldable pub close : ℕ → Hub → Hub
unfolding without_sub
close n h = record h { subs = without_sub n h.subs }

abbrev pub notified : {A : Type 0} → Result A → (A → String) → Hub → Hub
notified (ok a) key h = notify (key a) h
notified (err e) key h = h

-- `NotifyingStore.AppendItem`
unfoldable pub notifying_append_item :
    Os → String → TranscriptItem → Exec (World × Hub) TranscriptItem
unfolding notify
notifying_append_item os tid item state =
    let r = Store.append_item os tid item state.0 in (r.0, (r.1, notified r.0 (λ it. tid) state.1))

-- `NotifyingStore.CreateThread`
unfoldable pub notifying_create_thread : Os → ℕ → Exec (World × Hub) ThreadSnapshot
unfolding notify
notifying_create_thread os admin state =
    let r = Store.create_thread os admin state.0 in
    (r.0, (r.1, notified r.0 (λ snap. snap.thread_id) state.1))
