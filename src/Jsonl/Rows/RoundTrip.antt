-- ===== src/Jsonl/Rows/RoundTrip.antt =====
-- meta.go: writing a row and reading it back.
use mathlib.Core.Option as Option
use buat_postingan.Base.{ℕ, String, Option, none, some, ◌≡◌, refl, false, arith, is_empty}
use buat_postingan.Exec.{ok}
use buat_postingan.Domain.{ConversationMeta}
use buat_postingan.Domain.Ids.{new_thread_id, new_turn_id, new_title}
use buat_postingan.Jsonl.Rows.{
  checked, meta_to_row, row_to_meta, time_to_unix_float, unix_float_to_time,
}

-- A conversation as the code makes it: its ids and its title passed their value objects.
pub record IsStorable (m : ConversationMeta) : Type 0 where
  pub thread : new_thread_id m.thread_id ≡ ok m.thread_id
  pub source : is_empty m.title_source ≡ false
  pub state : is_empty m.status ≡ false
  pub title : (t : String) → m.title ≡ some t → new_title t ≡ ok t
  pub turn : (t : String) → m.active_turn_id ≡ some t → new_turn_id t ≡ ok t

accepted_title-ne-empty : (t : String) → new_title t ≡ ok t → is_empty t ≡ false
unfolding new_title
accepted_title-ne-empty t h = ground arith

accepted_turn-ne-empty : (t : String) → new_turn_id t ≡ ok t → is_empty t ≡ false
unfolding new_turn_id
accepted_turn-ne-empty t h = ground arith

checked_title :
    (o : Option String) → ((t : String) → o ≡ some t → new_title t ≡ ok t) → checked new_title o ≡ o
checked_title none h = refl
checked_title (some t) h = rw (accepted_title-ne-empty t (h t refl), h t refl)

checked_turn :
    (o : Option String)
    → ((t : String) → o ≡ some t → new_turn_id t ≡ ok t)
    → checked new_turn_id o ≡ o
checked_turn none h = refl
checked_turn (some t) h = rw (accepted_turn-ne-empty t (h t refl), h t refl)

-- A time after it was stored as float64 seconds.
abbrev pub kept_time : ℕ → ℕ
kept_time t = unix_float_to_time (time_to_unix_float t)

-- The conversation as the index keeps it: its times as float64 seconds give them back.
abbrev pub kept_meta : ConversationMeta → ConversationMeta
kept_meta m = record m {
  updated_at = kept_time m.updated_at;
  last_activity_at = kept_time m.last_activity_at;
  floor_last_turn_at = Option.map kept_time m.floor_last_turn_at;
}

map-twice :
    (o : Option ℕ)
    → Option.map unix_float_to_time (Option.map time_to_unix_float o) ≡ Option.map kept_time o
map-twice none = refl
map-twice (some t) = refl

-- Reading back the row that is written for a storable conversation gives the conversation, with
-- each of its times as the float64 of its seconds gives it back.
pub row_to_meta-meta_to_row :
    (m : ConversationMeta) (path : String)
    → IsStorable m
    → row_to_meta (meta_to_row m path) ≡ ok (kept_meta m)
unfolding row_to_meta meta_to_row
row_to_meta-meta_to_row m path h = rw h.thread (
    ground (
      arith,
      checked_title m.title h.title,
      checked_turn m.active_turn_id h.turn,
      map-twice m.floor_last_turn_at,
    ))
