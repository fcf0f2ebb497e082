-- ===== src/Jsonl/Store/Values.antt =====
-- store.go: what the operations read in the files, and what they make of it.
use buat_postingan.Base.{
  ℕ, ◌%◌, ◌^◌, max, String, Option, none, some, List, [], ◌∷◌, ltb, ◌==◌, str_eq, update,
  if◌then◌else◌,
}
use buat_postingan.Apperr.{Error, not_found, new}
use buat_postingan.Exec.{Result, ok, err, modify}
use buat_postingan.Json.{Payload}
use buat_postingan.Domain.{
  TranscriptItem, ConversationMeta, title_pending, conversation_active, conversation_deleted,
}
use buat_postingan.Jsonl.Rows.{SessionMetaRow, text_or, row_to_meta}
use buat_postingan.Jsonl.LineMap.{line_map_to_item}
use buat_postingan.Jsonl.Disk.{SeqFile, M}

abbrev pub conversation_or :
    Result ConversationMeta → Option ConversationMeta → Option ConversationMeta
conversation_or (ok meta) found = some meta
conversation_or (err e) found = found

-- The loop of `ResolveConversation`: the last row of the thread that converts.
unfoldable pub last_row :
    String → List SessionMetaRow → Option ConversationMeta → Option ConversationMeta
last_row tid [] found = found
last_row tid (row ∷ rows) found =
    last_row tid rows
      (if str_eq row.thread_id tid then conversation_or (row_to_meta row) found else found)

abbrev pub u64 : ℕ → ℕ
u64 n = n % 2 ^ 64

abbrev pub seq_value : SeqFile → Option ℕ
seq_value SeqFile.absent = some 0
seq_value SeqFile.blank = some 0
seq_value SeqFile.garbage = none
seq_value (SeqFile.number n) = some n

-- opening with O_CREATE makes an empty file
abbrev pub created : SeqFile → SeqFile
created SeqFile.absent = SeqFile.blank
created f = f

abbrev pub set_seq : String → SeqFile → M (Unit {0})
set_seq tid f = modify (λ w. record w { seqs = update w.seqs tid f })

abbrev pub parsed : Option ℕ → Result ℕ
parsed none = err (Error.plain "parse error")
parsed (some n) = ok n

abbrev pub converted : Result TranscriptItem → List TranscriptItem → List TranscriptItem
converted (ok item) items = item ∷ items
converted (err e) items = items

-- The items of the lines that convert, in order.
unfoldable pub items_of : ℕ → List Payload → List TranscriptItem
items_of at [] = []
items_of at (line ∷ lines) = converted (line_map_to_item at line) (items_of at lines)

abbrev pub after : ℕ → List TranscriptItem → List TranscriptItem
after seq [] = []
after seq (it ∷ items) = let rest = after seq items in if ltb seq it.seq then it ∷ rest else rest

abbrev pub greatest_seq : List TranscriptItem → ℕ
greatest_seq [] = 0
greatest_seq (it ∷ items) = max it.seq (greatest_seq items)

abbrev pub head_or : ℕ → Result ℕ → ℕ
head_or seq (ok head) = max head seq
head_or seq (err e) = seq

-- `!ok || meta.Status == ConversationDeleted`
abbrev pub live : Option ConversationMeta → Result ConversationMeta
live none = err (new 404 not_found "thread not found")
live (some meta) =
    if str_eq meta.status conversation_deleted
    then err (new 404 not_found "thread not found")
    else ok meta

abbrev pub known : Option ConversationMeta → Result ConversationMeta
known none = err (new 404 not_found "thread not found")
known (some meta) = ok meta

-- What `AppendConversationMeta` fills in before it writes.
unfoldable pub stamped_meta : ℕ → ConversationMeta → ConversationMeta
stamped_meta at meta = record meta {
  updated_at = at;
  last_activity_at = if meta.last_activity_at == 0 then at else meta.last_activity_at;
  status = text_or meta.status conversation_active;
  title_source = text_or meta.title_source title_pending;
}

-- What `SoftDeleteThread` writes of the conversation.
abbrev pub tombstone : ConversationMeta → ℕ → ConversationMeta
tombstone prev at = record prev {
  status = conversation_deleted;
  updated_at = at;
  floor_holder_admin_id = none;
  floor_last_turn_at = none;
  active_turn_id = none;
  active_turn_initiator_admin_id = none;
}
