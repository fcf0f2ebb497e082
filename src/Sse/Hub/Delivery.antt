-- ===== src/Sse/Hub/Delivery.antt =====
-- hub.go: the channels of the subscriptions.
use buat_postingan.Base.{
  ◌≤◌, String, Bool, true, ◌≡◌, List, [], ◌∷◌, All, arith, str_eq, is_empty, length, length-append,
  Bool-cases, inl, inr, ◌||◌, not,
}
use buat_postingan.Exec.{ok}
use buat_postingan.Json.{Payload}
use buat_postingan.Domain.{TranscriptItem}
use buat_postingan.Jsonl.Disk.{Os, World}
use buat_postingan.Sse.Hub.{
  EphemeralEvent, HubSub, Hub, wake_all, notify, offer_all, publish_ephemeral,
  notifying_append_item,
}

-- No channel holds more events than its capacity.
abbrev pub Bounded : Hub → Type 0
Bounded h = All (λ sub. length sub.waiting ≤ 64) h.subs

-- Whether a subscription of the thread has a wake in its channel.
abbrev pub is_woken : String → HubSub → Bool
is_woken key sub = not (str_eq sub.key key) || sub.woken

abbrev pub Woken : String → Hub → Type 0
Woken key h = All (λ sub. is_woken key sub ≡ true) h.subs

wake_all-Woken :
    (key : String) (subs : List HubSub) → All (λ sub. is_woken key sub ≡ true) (wake_all key subs)
unfolding wake_all
wake_all-Woken key [] = tt
wake_all-Woken key (sub ∷ subs) = (ground arith, wake_all-Woken key subs)

offer_all-bounded :
    (key : String) (ev : EphemeralEvent) (subs : List HubSub)
    → All (λ sub. length sub.waiting ≤ 64) subs
    → All (λ sub. length sub.waiting ≤ 64) (offer_all key ev subs)
unfolding offer_all
offer_all-bounded key ev [] h = tt
offer_all-bounded key ev (sub ∷ subs) h =
    (ground (arith, h.0, length-append sub.waiting (ev ∷ [])), offer_all-bounded key ev subs h.1)

-- An event that is published keeps every channel within its capacity.
pub publish_ephemeral-Bounded :
    (key name : String) (payload : Payload) (h : Hub)
    → Bounded h
    → Bounded (publish_ephemeral key name payload h)
unfolding publish_ephemeral
publish_ephemeral-Bounded key name payload h b = elim (Bool-cases (is_empty name)) [
  | inl none_given ↦ rw none_given b
  | inr given ↦
      rw given (offer_all-bounded key (record { name = name; payload = payload }) h.subs b)
]

-- When `NotifyingStore.AppendItem` answers, each subscription of the thread has a wake waiting for
-- it, so that its reader looks for the item.
pub notifying_append_item-Woken :
    (os : Os) (tid : String) (item it : TranscriptItem) (w : World) (h : Hub)
    → (notifying_append_item os tid item (w, h)).0 ≡ ok it
    → Woken tid (notifying_append_item os tid item (w, h)).1.1
unfolding notifying_append_item notify
notifying_append_item-Woken os tid item it w h done = rw done (wake_all-Woken tid h.subs)
