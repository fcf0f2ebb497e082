-- ===== src/Domain.antt =====
-- internal/domain: the entities, the value objects and the words of the enums.
pub mod Ids
pub mod ItemType
use buat_postingan.Base.{ℕ, String, Bool, Option, List}
use buat_postingan.Json.{Payload}

-- `TranscriptItem`. A time is a number of nanoseconds, and 0 is the zero `time.Time`.
pub record TranscriptItem : Type 0 where
  pub seq : ℕ
  pub id : String
  pub thread_id : String
  pub turn_id : String
  pub item_type : String
  pub payload : Payload
  pub at : ℕ

-- `ConversationMeta`
pub record ConversationMeta : Type 0 where
  pub thread_id : String
  pub title : Option String
  pub title_source : String
  pub status : String
  pub created_by_admin_user_id : ℕ
  pub updated_at : ℕ
  pub last_activity_at : ℕ
  pub floor_holder_admin_id : Option ℕ
  pub floor_last_turn_at : Option ℕ
  pub active_turn_id : Option String
  pub active_turn_initiator_admin_id : Option ℕ

-- `ThreadSnapshot`
pub record ThreadSnapshot : Type 0 where
  pub thread_id : String
  pub seq_head : ℕ
  pub busy : Bool
  pub floor_holder_admin_id : Option ℕ
  pub floor_remaining_sec : ℕ
  pub active_turn_id : Option String
  pub active_turn_initiator_admin_id : Option ℕ
  pub items : List TranscriptItem

-- `TitleSource`
abbrev pub title_pending : String
title_pending = "pending"

abbrev pub title_auto : String
title_auto = "auto"

abbrev pub title_manual : String
title_manual = "manual"

-- `ConversationStatus`
abbrev pub conversation_active : String
conversation_active = "active"

abbrev pub conversation_deleted : String
conversation_deleted = "deleted"

-- `DocsIndexGate`
pub record DocsIndexGate : Type 0 where
  pub usable : Bool
  pub status : String
  pub message : String
  pub document_count : ℕ

-- `TurnJob`; its trace id, which only log lines carry, is left out
pub record TurnJob : Type 0 where
  pub thread_id : String
  pub turn_id : String
  pub admin_user_id : ℕ
  pub admin_name : String
  pub message : String
  pub attachment_ids : List String
  pub is_retry : Bool
  pub lock_token : String
  pub provider_id : String
  pub model : String
  pub effort : String
  pub workspace : String
  pub ui_path : String
