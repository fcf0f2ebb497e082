-- ===== src/Tests/Fixtures.antt =====
-- An operating system in which nothing fails, a world with one thread, and collaborators that
-- agree.
use buat_postingan.Base.{◌+◌, ◌*◌, none, some, true, false, [], ◌∷◌, str_eq, if◌then◌else◌}
use buat_postingan.Exec.{ok}
use buat_postingan.Json.{num, text, obj, field, end}
use buat_postingan.Base.Int.{pos}
use buat_postingan.Domain.{ConversationMeta, TranscriptItem}
use buat_postingan.Jsonl.Rows.{SessionMetaRow}
use buat_postingan.Jsonl.LineMap.{item_to_line_map}
use buat_postingan.Jsonl.Disk.{Os, World, SeqFile, LockFile}
use buat_postingan.Webchat.Ports.{Ports}
use buat_postingan.Webchat.Turns.{StartTurnInput, RetryTurnInput}

abbrev pub calm : Os
calm = record {
  fails = λ n call. false;
  clock = λ n. 1000000000 * (100 + n);
  random = λ n. "token";
  jsonl_path = λ tid. "threads";
}

abbrev pub row : SessionMetaRow
row = record {
  thread_id = "thr_a";
  created_by_admin_user_id = 7;
  admin_user_id = 7;
  title = none;
  title_source = "pending";
  status = "active";
  path = "threads";
  updated_at = 5;
  last_activity_at = 5;
  floor_holder_admin_id = none;
  floor_last_turn_at = none;
  active_turn_id = none;
  active_turn_initiator_admin_id = none;
}

abbrev pub meta : ConversationMeta
meta = record {
  thread_id = "thr_a";
  title = none;
  title_source = "pending";
  status = "active";
  created_by_admin_user_id = 7;
  updated_at = 5;
  last_activity_at = 5;
  floor_holder_admin_id = none;
  floor_last_turn_at = none;
  active_turn_id = none;
  active_turn_initiator_admin_id = none;
}

abbrev pub message : TranscriptItem
message = record {
  seq = 1;
  id = "itm_1";
  thread_id = "thr_a";
  turn_id = "trn_1";
  item_type = "user_message";
  payload = λ k.
      if str_eq k "text"
      then some (text "hello")
      else if str_eq k "admin_user_id"
      then some (num (pos 7))
      else none;
  at = 5;
}

abbrev pub failure : TranscriptItem
failure = record {
  seq = 2;
  id = "itm_2";
  thread_id = "thr_a";
  turn_id = "trn_1";
  item_type = "turn.failed";
  payload = λ k. if str_eq k "error" then some (obj (field "code" (text "upstream") end)) else none;
  at = 6;
}

-- The thread has a message and the failure of its turn.
abbrev pub world : World
world = record {
  index = row ∷ [];
  lines = λ tid. item_to_line_map message ∷ item_to_line_map failure ∷ [];
  seqs = λ tid. SeqFile.number 2;
  locks = λ tid. LockFile.absent;
  flags = λ tid. [];
  queue = [];
  tick = 0;
}

abbrev pub ports : Ports
ports = record {
  gate = ok (record { usable = true; status = "ready"; message = ""; document_count = 3 });
  redact = none;
  resolve_model = none;
  resolve_path = none;
  enqueue = λ job. ok tt;
  floor_ttl_sec = 600;
  lock_ttl_sec = 300;
  to_lower = λ s. s;
}

abbrev pub start_input : StartTurnInput
start_input = record {
  thread_id = "thr_a";
  message = " hello ";
  admin_user_id = 7;
  admin_name = "Owner";
  attachment_ids = [];
  model = "";
  effort = "high";
  workspace = "";
  ui_path = "";
}

abbrev pub retry_input : RetryTurnInput
retry_input = record {
  thread_id = "thr_a";
  turn_id = "trn_1";
  admin_user_id = 7;
  model = "";
  effort = "";
  workspace = "";
  ui_path = "";
}
