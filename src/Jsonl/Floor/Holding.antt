-- ===== src/Jsonl/Floor/Holding.antt =====
-- floor.go: who holds the floor, and for how long.
use buat_postingan.Base.{
  ℕ, suc, ◌+◌, ◌*◌, ◌<◌, ◌≤◌, String, ◌≡◌, ◌↔◌, ◌⊎◌, refl, inl, inr, true, false, Bool-cases,
  Option-cases, Bool, none, some, arith, str_eq, if◌then◌else◌,
}
use buat_postingan.Apperr.{app, floor_locked, floor}
use buat_postingan.Exec.{Result, ok, err}
use buat_postingan.Domain.{ConversationMeta, conversation_active}
use buat_postingan.Domain.Ids.{new_thread_id, new_turn_id}
use buat_postingan.Jsonl.Rows.RoundTrip.{IsStorable}
use buat_postingan.Jsonl.Disk.{Os, World, index_read}
use buat_postingan.Jsonl.Store.{resolve_conversation, append_conversation_meta}
use buat_postingan.Jsonl.Store.Conversations.{
  conversation, stored_meta, conversation-Found, writes-conversation,
}
use buat_postingan.Jsonl.Floor.{second, seconds_left, acquire}

-- The floor is free exactly when the time to live, of at least a second, has passed since the last turn.
pub seconds_left_zero :
    (ttl_sec last at : ℕ)
    → 0 < ttl_sec
    → (seconds_left ttl_sec last at ≡ 0) ↔ (last + ttl_sec * second ≤ at)
unfolding seconds_left
seconds_left_zero ttl_sec last at pos = ground arith

-- The conversation after the floor went to `admin` for `turn` at the time `at`
abbrev pub taken : ConversationMeta → ℕ → String → ℕ → ConversationMeta
taken prev admin turn at = record prev {
  status = conversation_active;
  updated_at = at;
  last_activity_at = at;
  floor_holder_admin_id = some admin;
  floor_last_turn_at = some at;
  active_turn_id = some turn;
  active_turn_initiator_admin_id = some admin;
}

taken-IsStorable :
    (prev : ConversationMeta) (admin : ℕ) (turn : String) (at : ℕ)
    → new_turn_id turn ≡ ok turn
    → IsStorable prev
    → IsStorable (taken prev admin turn at)
taken-IsStorable prev admin turn at t h = record {
  thread = h.thread;
  source = h.source;
  state = refl;
  title = h.title;
  turn = λ s e. cc (t, e);
}

module _ (os : Os) (w : World) (tid : String) (admin : ℕ) (turn : String) where
  acquired :
      (prev : ConversationMeta)
      → conversation w tid ≡ some prev
      → os.fails w.tick index_read ≡ false
      → acquire os tid admin turn w
        ≡ append_conversation_meta os
            (taken prev admin turn (os.clock (suc w.tick)))
            (record w { tick = suc (suc w.tick) })
  unfolding acquire resolve_conversation
  acquired prev found read = rw (read, found)

  unread :
      (e : Bool) → os.fails w.tick index_read ≡ true → (acquire os tid admin turn w).0 ≡ ok tt → ⊥
  unfolding acquire resolve_conversation
  unread e failed done = ground arith

  unknown :
      conversation w tid ≡ none
      → os.fails w.tick index_read ≡ false
      → (acquire os tid admin turn w).0 ≡ ok tt
      → ⊥
  unfolding acquire resolve_conversation
  unknown missing read done = ground arith

  acquired-conversation :
      new_thread_id tid ≡ ok tid
      → new_turn_id turn ≡ ok turn
      → (prev : ConversationMeta) → conversation w tid ≡ some prev
      → os.fails w.tick index_read ≡ false
      → (acquire os tid admin turn w).0 ≡ ok tt
      → (j : String)
      → conversation (acquire os tid admin turn w).1 j ≡ (
          if str_eq tid j
          then some (
              stored_meta
                (os.clock (suc (suc w.tick)))
                (taken prev admin turn (os.clock (suc w.tick))))
          else conversation w j)
  acquired-conversation proper t prev found read done =
      let (storable, thread) = conversation-Found w tid prev proper found in
      writes-conversation os w _ _ tid _ (acquired prev found read) refl
        (taken-IsStorable prev admin turn _ t storable) thread done

  -- After a successful `Acquire` by a proper thread and turn id, the conversation of the thread,
  -- which there was, names the admin as holder and initiator, the turn as active and the time of the
  -- call, its times as float64 seconds give them back; other threads keep theirs.
  pub acquire-conversation :
      new_thread_id tid ≡ ok tid
      → new_turn_id turn ≡ ok turn
      → (acquire os tid admin turn w).0 ≡ ok tt
      → (prev : ConversationMeta) × (conversation w tid ≡ some prev)
        × ((j : String)
            → conversation (acquire os tid admin turn w).1 j ≡ (
                if str_eq tid j
                then some (
                    stored_meta
                      (os.clock (suc (suc w.tick)))
                      (taken prev admin turn (os.clock (suc w.tick))))
                else conversation w j))
  acquire-conversation proper t done = elim (Bool-cases (os.fails w.tick index_read)) [
    | inl failed ↦ absurd (unread true failed done)
    | inr read ↦ elim (Option-cases (conversation w tid)) [
      | inl missing ↦ absurd (unknown missing read done)
      | inr (prev, found) ↦ (prev, found, acquired-conversation proper t prev found read done)
    ]
  ]

-- The floor of `admin` is free from the time `freed` on, in nanoseconds: the answer `r` to `other`
-- at the time `at`, by the number of seconds that is told.
abbrev pub Asserted : ℕ → ℕ → ℕ → ℕ → Result (Unit {0}) → Type 0
Asserted admin other freed at r =
    (((admin ≡ other) ⊎ (freed ≤ at)) × (r ≡ ok tt))
    ⊎ ((at < freed)
        × (left : ℕ) × (freed ≤ at + left * second)
        × (at + left * second < freed + second)
        × (r ≡ err (app 423 floor_locked "Speak floor locked" (floor admin left))))
