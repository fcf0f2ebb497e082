-- ===== src/Jsonl/Rows.antt =====
-- meta.go: a conversation's row of the session index.
pub mod RoundTrip
use buat_postingan.Base.{
  ℕ, zero, ◌+◌, ◌*◌, String, Option, none, some, List, is_empty, ◌==◌, ◌&&◌, not, if◌then◌else◌,
}
use mathlib.Core.Option as Option
use buat_postingan.Float.{float_of, int_of, multiplied, minus, seconds_of}
use buat_postingan.Exec.{Result, ok, err, ◌>>=◌, proceed}
use buat_postingan.Domain.{ConversationMeta, title_pending, conversation_active}
use buat_postingan.Domain.Ids.{new_thread_id, new_turn_id, new_title}

-- `timeToUnixFloat`; the zero time is 0
unfoldable pub time_to_unix_float : ℕ → ℕ
time_to_unix_float t = if t == 0 then 0 else seconds_of t

-- `unixFloatToTime`: whole seconds and the nanoseconds that are left, both cut down
unfoldable pub unix_float_to_time : ℕ → ℕ
unix_float_to_time v =
    let sec = int_of v in sec * 1000000000 + int_of (multiplied (minus v (float_of sec)) 1000000000)

-- `sessionMetaRow`; a float64 is given in units of 2^-1074
pub record SessionMetaRow : Type 0 where
  pub thread_id : String
  pub created_by_admin_user_id : ℕ
  pub admin_user_id : ℕ
  pub title : Option String
  pub title_source : String
  pub status : String
  pub path : String
  pub updated_at : ℕ
  pub last_activity_at : ℕ
  pub floor_holder_admin_id : Option ℕ
  pub floor_last_turn_at : Option ℕ
  pub active_turn_id : Option String
  pub active_turn_initiator_admin_id : Option ℕ

abbrev pub text_or : String → String → String
text_or s default = if is_empty s then default else s

-- `metaToRow`
unfoldable pub meta_to_row : ConversationMeta → String → SessionMetaRow
meta_to_row meta path = record {
  thread_id = meta.thread_id;
  created_by_admin_user_id = meta.created_by_admin_user_id;
  admin_user_id = meta.created_by_admin_user_id;
  title = meta.title;
  title_source = text_or meta.title_source title_pending;
  status = text_or meta.status conversation_active;
  path = path;
  updated_at = time_to_unix_float meta.updated_at;
  last_activity_at = time_to_unix_float meta.last_activity_at;
  floor_holder_admin_id = meta.floor_holder_admin_id;
  floor_last_turn_at = Option.map time_to_unix_float meta.floor_last_turn_at;
  active_turn_id = meta.active_turn_id;
  active_turn_initiator_admin_id = meta.active_turn_initiator_admin_id;
}

abbrev pub accepted : Result String → Option String
accepted (ok s) = some s
accepted (err e) = none

-- `if row.F != nil && *row.F != ""`, with the field left out where the value object refuses it
abbrev pub checked : (String → Result String) → Option String → Option String
checked new none = none
checked new (some s) = if is_empty s then none else accepted (new s)

pub row_meta : SessionMetaRow → String → ConversationMeta
row_meta row tid = record {
  thread_id = tid;
  title = checked new_title row.title;
  title_source = text_or row.title_source title_pending;
  status = text_or row.status conversation_active;
  created_by_admin_user_id =
      if row.created_by_admin_user_id == 0 && not (row.admin_user_id == 0)
      then row.admin_user_id
      else row.created_by_admin_user_id;
  updated_at = unix_float_to_time row.updated_at;
  last_activity_at = unix_float_to_time row.last_activity_at;
  floor_holder_admin_id = row.floor_holder_admin_id;
  floor_last_turn_at = Option.map unix_float_to_time row.floor_last_turn_at;
  active_turn_id = checked new_turn_id row.active_turn_id;
  active_turn_initiator_admin_id = row.active_turn_initiator_admin_id;
}

abbrev pub map_result : {A B : Type 0} → (A → B) → Result A → Result B
map_result f (ok a) = ok (f a)
map_result f (err e) = err e

-- `rowToMeta`
unfoldable pub row_to_meta : SessionMetaRow → Result ConversationMeta
unfolding row_meta
row_to_meta row = map_result (row_meta row) (new_thread_id row.thread_id)
