-- ===== src/Jsonl/Floor.antt =====
-- floor.go: who may speak in a thread, by the conversation's row of the index.
pub mod Holding
use buat_postingan.Base.{
  ℕ, zero, suc, ◌+◌, ◌-◌, ◌*◌, ◌/◌, String, Bool, true, false, Option, none, some, ltb, leb, ◌==◌,
  str_eq, if◌then◌else◌,
}
use buat_postingan.Apperr.{Error, app, not_found, floor_locked, floor, new}
use buat_postingan.Exec.{Result, ok, err, pure, fail, lift, ◌>>=◌, ◌>>◌}
use buat_postingan.Domain.{ConversationMeta, conversation_active}
use buat_postingan.Jsonl.Disk.{Os, World, M, now}
use buat_postingan.Jsonl.Store.{live, known, resolve_conversation, append_conversation_meta}

-- `defaultSpeakFloorTTLSec`
abbrev pub default_speak_floor_ttl_sec : ℕ
default_speak_floor_ttl_sec = 600

-- `NewSpeakFloor`: the time to live of the floor
unfoldable pub new_speak_floor : ℕ → ℕ
new_speak_floor ttl_sec = if ttl_sec == 0 then default_speak_floor_ttl_sec else ttl_sec

abbrev pub second : ℕ
second = 1000000000

-- ⌈max 0 (ttl - elapsed)⌉ in seconds, with the elapsed time `at - last` in nanoseconds
unfoldable pub seconds_left : ℕ → ℕ → ℕ → ℕ
seconds_left ttl_sec last at =
    let ttl = if ttl_sec == 0 then 1 else ttl_sec in
    (last + ttl * second - at + (second - 1)) / second

abbrev pub remaining_at : ℕ → Option ℕ → Option ℕ → ℕ → ℕ
remaining_at ttl_sec (some holder) (some last) at = seconds_left ttl_sec last at
remaining_at ttl_sec _ _ at = 0

module _ (os : Os) (ttl_sec : ℕ) where
  -- `remainingSec`
  unfoldable pub remaining_sec : ConversationMeta → M ℕ
  remaining_sec meta = do
    at ← now os
    pure (remaining_at ttl_sec meta.floor_holder_admin_id meta.floor_last_turn_at at)

  abbrev pub assert_holder : ConversationMeta → ℕ → Option ℕ → M (Unit {0})
  assert_holder meta admin none = pure tt
  assert_holder meta admin (some holder) = if holder == admin then pure tt else do
    remaining ← remaining_sec meta
    if remaining == 0
        then pure tt
        else fail (app 423 floor_locked "Speak floor locked" (floor holder remaining))

  -- `Assert`
  unfoldable pub assert : String → ℕ → M (Unit {0})
  unfolding remaining_sec
  assert tid admin = do
    found ← resolve_conversation os tid
    meta ← lift (live found)
    assert_holder meta admin meta.floor_holder_admin_id

  abbrev remaining_of : Option ConversationMeta → M (Option ℕ × ℕ)
  remaining_of none = pure (none, 0)
  remaining_of (some meta) = do sec ← remaining_sec meta; pure (meta.floor_holder_admin_id, sec)

  -- `Remaining`
  unfoldable pub remaining : String → M (Option ℕ × ℕ)
  unfolding remaining_sec
  remaining tid = do found ← resolve_conversation os tid; remaining_of found

module _ (os : Os) where
  -- `Acquire`
  unfoldable pub acquire : String → ℕ → String → M (Unit {0})
  acquire tid admin turn = do
    found ← resolve_conversation os tid
    prev ← lift (known found)
    at ← now os
    append_conversation_meta os (record prev {
      status = conversation_active;
      updated_at = at;
      last_activity_at = at;
      floor_holder_admin_id = some admin;
      floor_last_turn_at = some at;
      active_turn_id = some turn;
      active_turn_initiator_admin_id = some admin;
    })
