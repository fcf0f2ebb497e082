-- ===== src/Tests/Threads.antt =====
-- Threads that are written, read back, numbered, locked and deleted.
use buat_postingan.Base.{
  String, ◌≡◌, ◌≢◌, ◌⊎◌, refl, true, false, some, List, [], ◌∷◌, inr, arith, str_eq, if◌then◌else◌,
  trim_space,
}
use buat_postingan.Apperr.{new, not_found, thread_busy}
use buat_postingan.Exec.{ok, err}
use buat_postingan.Domain.{ConversationMeta}
use buat_postingan.Domain.Ids.{new_turn_id, new_thread_id, new_item_id}
use buat_postingan.Jsonl.Disk.{World, SameFiles, LockFile, LockRecord, lock_open}
use buat_postingan.Float.{seconds_of, int_of, multiplied, minus, float_of}
use buat_postingan.Json.{as_nat}
use buat_postingan.Jsonl.Rows.{row_to_meta, meta_to_row, time_to_unix_float, unix_float_to_time}
use buat_postingan.Jsonl.Rows.RoundTrip as Row
use buat_postingan.Jsonl.LineMap.{line_map_to_item, item_to_line_map}
use buat_postingan.Jsonl.LineMap.RoundTrip as Line
use buat_postingan.Jsonl.Store.{
  last_row, resolve_conversation, append_conversation_meta, get_thread, append_item,
  soft_delete_thread, bury, erase_files, remove_flags,
}
use buat_postingan.Jsonl.Store.Conversations.{conversation, stored_meta, append-conversation}
use buat_postingan.Jsonl.Store.Numbering.{IsNumbered, KeepsCounter, Appended, append_item-Appended}
use buat_postingan.Jsonl.Store.Deletion.{soft_delete_thread-locked, soft_delete_thread-gone}
use buat_postingan.Jsonl.Lock.{try_acquire, is_busy, release, read_lock_record}
use buat_postingan.Jsonl.Lock.Exclusion.{
  LockCall, acquire_call, busy_call, release_call, IsHeld, calls, call, exclusion,
}
use buat_postingan.Jsonl.Interrupt.{flag_name}
use buat_postingan.Jsonl.Floor.{acquire}
use buat_postingan.Jsonl.Floor.Holding.{taken, acquire-conversation}
use buat_postingan.Tests.Fixtures.{calm, world, meta, message}

-- A time that loses 73 ns on its way through the index.
precision : Row.kept_time 1700000000123456789 ≡ 1700000000123456716
unfolding time_to_unix_float unix_float_to_time seconds_of int_of multiplied minus float_of
precision = refl

meta-IsStorable : Row.IsStorable meta
unfolding new_thread_id trim_space
meta-IsStorable = record {
  thread = refl;
  source = refl;
  state = refl;
  title = λ t e. cc;
  turn = λ t e. cc;
}

row_to_meta-meta_to_row_example : row_to_meta (meta_to_row meta "threads") ≡ ok (Row.kept_meta meta)
row_to_meta-meta_to_row_example = Row.row_to_meta-meta_to_row meta "threads" meta-IsStorable

message-IsStorable : Line.IsStorable message
unfolding new_thread_id new_item_id new_turn_id trim_space time_to_unix_float seconds_of
message-IsStorable = record {
  item = refl;
  thread = refl;
  turn = inr refl;
  kind = refl;
  number = omega arith;
  time = refl;
}

line_map_to_item-item_to_line_map_example :
    line_map_to_item 9 (item_to_line_map message) ≡ ok (Line.read_back message)
line_map_to_item-item_to_line_map_example =
    Line.line_map_to_item-item_to_line_map 9 message message-IsStorable

written : (append_conversation_meta calm meta world).0 ≡ ok tt
unfolding append_conversation_meta
written = refl

append-conversation_example :
    conversation (append_conversation_meta calm meta world).1 "thr_a"
    ≡ some (stored_meta 100000000000 meta)
append-conversation_example = append-conversation calm world meta "thr_a" meta-IsStorable written

calm-KeepsCounter : KeepsCounter calm
calm-KeepsCounter = record { readable = λ n. refl; writable = λ n. refl }

world-IsNumbered : IsNumbered "thr_a" 2 world
unfolding item_to_line_map as_nat
world-IsNumbered = record {
  counter = refl;
  bounded = (omega arith, (omega arith, tt));
  rising = ((omega arith, tt), (tt, tt));
}

append_item-Appended_example :
    Appended "thr_a" 2
      (append_item calm "thr_a" message world).0
      (append_item calm "thr_a" message world).1
append_item-Appended_example =
    append_item-Appended calm "thr_a" 2 message world calm-KeepsCounter world-IsNumbered
      (omega arith)

abbrev rec : LockRecord
rec = record { token = "mine"; expires_at = 1000 }

abbrev locked : World
locked = record world { locks = λ tid. LockFile.held rec }

locked-IsHeld : IsHeld calm "thr_a" rec 50 locked
locked-IsHeld = record {
  held = refl;
  named = refl;
  readable = λ n below. refl;
  unexpired = λ n below. omega arith;
}

abbrev contest : List LockCall
contest = busy_call "thr_a" ∷ release_call "thr_a" "other" ∷ acquire_call "thr_a" ∷ []

exclusion_example :
    ((calls calm 300 contest locked).locks "thr_a" ≡ LockFile.held rec)
    × ((calm.fails (calls calm 300 contest locked).tick lock_open ≡ true)
        ⊎ ((try_acquire calm 300 "thr_a" (calls calm 300 contest locked)).0
            ≡ err (new 409 thread_busy "thread busy")))
unfolding calls call try_acquire is_busy release read_lock_record
exclusion_example =
    exclusion calm 300 "thr_a" rec 50 contest locked (tt, ((λ same. refl), (tt, tt))) locked-IsHeld
      (omega arith)

soft_delete_thread-locked_example :
    ((soft_delete_thread calm "thr_a" locked).0 ≢ ok tt)
    × SameFiles locked (soft_delete_thread calm "thr_a" locked).1
soft_delete_thread-locked_example = soft_delete_thread-locked calm "thr_a" locked (λ e. cc)

deleted : (soft_delete_thread calm "thr_a" world).0 ≡ ok tt
unfolding soft_delete_thread bury erase_files remove_flags append_conversation_meta
    resolve_conversation last_row row_to_meta new_thread_id trim_space
deleted = refl

proper : new_thread_id "thr_a" ≡ ok "thr_a"
unfolding new_thread_id trim_space
proper = refl

soft_delete_thread-gone_example :
    ((get_thread calm "thr_a" 0 (soft_delete_thread calm "thr_a" world).1).0
      ≡ err (new 404 not_found "thread not found"))
    × ((j : String)
        → str_eq "thr_a" j ≡ false
        → conversation (soft_delete_thread calm "thr_a" world).1 j ≡ conversation world j)
soft_delete_thread-gone_example =
    soft_delete_thread-gone calm "thr_a" world (soft_delete_thread calm "thr_a" world).1 0 proper
      deleted refl refl

proper_turn : new_turn_id "trn_2" ≡ ok "trn_2"
unfolding new_turn_id trim_space
proper_turn = refl

acquired : (acquire calm "thr_a" 7 "trn_2" world).0 ≡ ok tt
unfolding acquire append_conversation_meta resolve_conversation last_row row_to_meta new_thread_id
    trim_space
acquired = refl

acquire-conversation_example :
    (prev : ConversationMeta) × (conversation world "thr_a" ≡ some prev)
    × ((j : String)
        → conversation (acquire calm "thr_a" 7 "trn_2" world).1 j ≡ (
            if str_eq "thr_a" j
            then some (stored_meta 102000000000 (taken prev 7 "trn_2" 101000000000))
            else conversation world j))
acquire-conversation_example =
    acquire-conversation calm world "thr_a" 7 "trn_2" proper proper_turn acquired

abbrev asked : World
asked = record world { flags = λ tid. flag_name "trn_1" ∷ flag_name "trn_2" ∷ [] }
