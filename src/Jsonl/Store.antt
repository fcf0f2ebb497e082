-- ===== src/Jsonl/Store.antt =====
-- store.go: the thread store over the files.
pub mod Reading
pub mod Numbering
pub mod Conversations
pub mod Deletion
mod Values
unfoldable pub use Values.*
use buat_postingan.Base.{
  ℕ, ◌+◌, String, false, Option, none, some, List, [], ◌∷◌, ◌++◌, ◌==◌, ◌||◌, is_empty, update,
  if◌then◌else◌,
}
use buat_postingan.Apperr.{validation, thread_busy, new}
use buat_postingan.Exec.{Result, ok, err, pure, fail, lift, gets, modify, attempt, ◌>>=◌, ◌>>◌}
use buat_postingan.Json.{no_payload}
use buat_postingan.Domain.{
  TranscriptItem, ConversationMeta, ThreadSnapshot, title_pending, title_manual,
  conversation_active,
}
use buat_postingan.Domain.Ids.{new_thread_id, new_item_id}
use buat_postingan.Domain.ItemType
use buat_postingan.Jsonl.Rows.{meta_to_row}
use buat_postingan.Jsonl.LineMap.{item_to_line_map}
use buat_postingan.Jsonl.Disk.{
  Os, SeqFile, LockFile, M, failing, io, now, fresh, index_read, index_append, lines_read,
  lines_append, lines_remove, seq_open, seq_read, seq_truncate, seq_write, seq_remove, lock_stat,
  flag_list, flag_remove,
}

module _ (os : Os) where
  -- `ResolveConversation`
  unfoldable pub resolve_conversation : String → M (Option ConversationMeta)
  resolve_conversation tid = do io os index_read; gets (λ w. last_row tid w.index none)

  -- `AppendConversationMeta`
  unfoldable pub append_conversation_meta : ConversationMeta → M (Unit {0})
  append_conversation_meta meta =
      if is_empty meta.thread_id then fail (new 422 validation "thread_id required") else do
        at ← now os
        io os index_append
        modify (λ w. record w {
          index = w.index ++ meta_to_row (stamped_meta at meta) (os.jsonl_path meta.thread_id) ∷ [];
        })

  -- `nextSeq`, under the lock of the file. A read error counts as an empty file.
  unfoldable pub next_seq : String → M ℕ
  next_seq tid = do
    io os seq_open
    modify (λ w. record w { seqs = update w.seqs tid (created (w.seqs tid)) })
    unread ← failing os seq_read
    file ← gets (λ w. w.seqs tid)
    last ← lift (parsed (if unread then some 0 else seq_value file))
    io os seq_truncate
    set_seq tid SeqFile.blank
    io os seq_write
    set_seq tid (SeqFile.number (u64 (last + 1)))
    pure (u64 (last + 1))

  unfoldable pub append_numbered : String → TranscriptItem → ℕ → M TranscriptItem
  append_numbered tid item seq = do
    at ← now os
    let stamped = record item {
      seq = seq;
      thread_id = tid;
      at = if item.at == 0 then at else item.at;
    }
    io os lines_append
    modify (λ w. record w {
      lines = update w.lines tid (w.lines tid ++ item_to_line_map stamped ∷ []);
    })
    pure stamped

  -- `AppendItem`
  unfoldable pub append_item : String → TranscriptItem → M TranscriptItem
  append_item tid item =
      if is_empty tid || is_empty item.item_type || is_empty item.id
      then fail (new 422 validation "thread_id, type, id required")
      else do seq ← next_seq tid; append_numbered tid item seq

  -- `SeqHead`
  unfoldable pub seq_head : String → M ℕ
  seq_head tid = do io os seq_read; file ← gets (λ w. w.seqs tid); lift (parsed (seq_value file))

  -- `GetThread`
  unfoldable pub get_thread : String → ℕ → M ThreadSnapshot
  get_thread tid after_seq = do
    found ← resolve_conversation tid
    meta ← lift (live found)
    io os lines_read
    at ← now os
    items ← gets (λ w. items_of at (w.lines tid))
    head ← attempt (seq_head tid)
    pure (record {
      thread_id = tid;
      seq_head = head_or (greatest_seq items) head;
      busy = false;
      floor_holder_admin_id = meta.floor_holder_admin_id;
      floor_remaining_sec = 0;
      active_turn_id = meta.active_turn_id;
      active_turn_initiator_admin_id = meta.active_turn_initiator_admin_id;
      items = after after_seq items;
    })

  -- `CreateThread`
  unfoldable pub create_thread : ℕ → M ThreadSnapshot
  create_thread created_by = do
    raw ← fresh os
    tid ← lift (new_thread_id raw)
    at ← now os
    append_conversation_meta (record {
      thread_id = tid;
      title = none;
      title_source = title_pending;
      status = conversation_active;
      created_by_admin_user_id = created_by;
      updated_at = at;
      last_activity_at = at;
      floor_holder_admin_id = none;
      floor_last_turn_at = none;
      active_turn_id = none;
      active_turn_initiator_admin_id = none;
    })
    raw_item ← fresh os
    item_id ← lift (new_item_id raw_item)
    item ← append_item tid (record {
      seq = 0;
      id = item_id;
      thread_id = tid;
      turn_id = "";
      item_type = ItemType.thread_started;
      payload = no_payload;
      at = at;
    })
    pure (record {
      thread_id = tid;
      seq_head = item.seq;
      busy = false;
      floor_holder_admin_id = none;
      floor_remaining_sec = 0;
      active_turn_id = none;
      active_turn_initiator_admin_id = none;
      items = item ∷ [];
    })

  -- `RenameThread`
  unfoldable pub rename_thread : String → String → M (Unit {0})
  rename_thread tid title = do
    found ← resolve_conversation tid
    prev ← lift (live found)
    at ← now os
    append_conversation_meta
        (record prev { title = some title; title_source = title_manual; updated_at = at })

  abbrev pub cleared : Option ConversationMeta → M (Unit {0})
  cleared none = pure tt
  cleared (some prev) = do
    at ← now os
    append_conversation_meta (record prev {
      updated_at = at;
      last_activity_at = at;
      active_turn_id = none;
      active_turn_initiator_admin_id = none;
    })

  -- `ClearActiveTurn`
  unfoldable pub clear_active_turn : String → M (Unit {0})
  clear_active_turn tid = do found ← resolve_conversation tid; cleared found

  -- A file that is removed, its error dropped.
  abbrev pub remove_lines : String → M (Unit {0})
  remove_lines tid = do
    kept ← failing os lines_remove
    modify (λ w. record w { lines = if kept then w.lines else update w.lines tid [] })

  abbrev pub remove_seq : String → M (Unit {0})
  remove_seq tid = do
    kept ← failing os seq_remove
    modify (λ w. record w { seqs = if kept then w.seqs else update w.seqs tid SeqFile.absent })

  -- The loop over the entries of `interruptDir`, from the list of those that are left.
  unfoldable pub remove_flags : String → List String → List String → M (Unit {0})
  remove_flags tid left [] = modify (λ w. record w { flags = update w.flags tid left })
  remove_flags tid left (turn ∷ turns) = do
    kept ← failing os flag_remove
    remove_flags tid (if kept then left ++ turn ∷ [] else left) turns

  abbrev pub clear_flags : String → M (Unit {0})
  clear_flags tid = do
    unlisted ← failing os flag_list
    turns ← gets (λ w. w.flags tid)
    if unlisted then pure tt else remove_flags tid [] turns

  -- the files of the thread, each error dropped
  unfoldable pub erase_files : String → M (Unit {0})
  erase_files tid = do remove_lines tid; remove_seq tid; clear_flags tid

  abbrev pub lock_free : LockFile → Result (Unit {0})
  lock_free LockFile.absent = ok tt
  lock_free _ = err (new 409 thread_busy "thread busy")

  unfoldable pub bury : String → ConversationMeta → M (Unit {0})
  bury tid prev = do erase_files tid; at ← now os; append_conversation_meta (tombstone prev at)

  -- `SoftDeleteThread`
  unfoldable pub soft_delete_thread : String → M (Unit {0})
  soft_delete_thread tid = do
    found ← resolve_conversation tid
    prev ← lift (known found)
    io os lock_stat
    file ← gets (λ w. w.locks tid)
    lift (lock_free file)
    bury tid prev
