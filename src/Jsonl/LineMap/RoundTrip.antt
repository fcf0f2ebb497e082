-- ===== src/Jsonl/LineMap/RoundTrip.antt =====
-- line.go: writing a line and reading it back.
use buat_postingan.Base.{
  ℕ, ◌^◌, ◌<◌, String, ◌≡◌, ◌⊎◌, false, none, some, inl, inr, Bool-cases, ◌==◌, arith, is_empty,
  if◌then◌else◌,
}
use buat_postingan.Exec.{ok}
use mathlib.Core.Path.{fun_ext}
use mathlib.Core.Option as Option
use buat_postingan.Float.{float_int_small}
use buat_postingan.Jsonl.Rows.{time_to_unix_float, unix_float_to_time}
use buat_postingan.Json.{text, Payload}
use buat_postingan.Domain.{TranscriptItem}
use buat_postingan.Domain.Ids.{new_thread_id, new_turn_id, new_item_id}
use buat_postingan.Jsonl.LineMap.{
  turn_field, drop_null, json_read, time_or, as_uint64, as_float64, is_core_line_key,
  item_to_line_map, line_map_to_item,
}

-- An item as the code makes it: its ids passed their value objects, it has a type,
-- its number is below 2^53, and the float64 of its time is not 0.
pub record IsStorable (it : TranscriptItem) : Type 0 where
  pub item : new_item_id it.id ≡ ok it.id
  pub thread : new_thread_id it.thread_id ≡ ok it.thread_id
  pub turn : (it.turn_id ≡ "") ⊎ (new_turn_id it.turn_id ≡ ok it.turn_id)
  pub kind : is_empty it.item_type ≡ false
  pub number : it.seq < 2 ^ 53
  pub time : (time_to_unix_float it.at == 0) ≡ false

-- The payload as the line gives it back: without the keys of the line itself and without nulls,
-- and with its integers by way of float64.
abbrev pub stored_payload : Payload → Payload
stored_payload p k = if is_core_line_key k then none else Option.map json_read (drop_null (p k))

id-ne-empty : (t : String) → new_item_id t ≡ ok t → is_empty t ≡ false
unfolding new_item_id
id-ne-empty t h = ground arith

thread-ne-empty : (t : String) → new_thread_id t ≡ ok t → is_empty t ≡ false
unfolding new_thread_id
thread-ne-empty t h = ground arith

turn-ne-empty : (t : String) → new_turn_id t ≡ ok t → is_empty t ≡ false
unfolding new_turn_id
turn-ne-empty t h = ground arith

payload-line :
    (it : TranscriptItem) (k : String)
    → is_core_line_key k ≡ false
    → item_to_line_map it k ≡ drop_null (it.payload k)
unfolding item_to_line_map is_core_line_key
payload-line it k h = ground arith

payload-stored :
    (it : TranscriptItem)
    → (λ (k : String).
        if is_core_line_key k then none else Option.map json_read (item_to_line_map it k))
      ≡ stored_payload it.payload
payload-stored it = fun_ext λ k. elim (Bool-cases (is_core_line_key k)) [
  | inl core ↦ rw core
  | inr free ↦ rw (free, payload-line it k free)
]

turn-stored :
    (t : String)
    → (t ≡ "") ⊎ (new_turn_id t ≡ ok t)
    → turn_field (if is_empty t then none else some (text t)) ≡ t
turn-stored t (inl e) = rw e
turn-stored t (inr e) = rw (turn-ne-empty t e, turn-ne-empty t e, e)

time_or-eq : (now v : ℕ) → (v == 0) ≡ false → time_or now v ≡ unix_float_to_time v
time_or-eq now v h = rw h

-- The item as its line gives it back.
abbrev pub read_back : TranscriptItem → TranscriptItem
read_back it = record it {
  payload = stored_payload it.payload;
  at = unix_float_to_time (time_to_unix_float it.at);
}

-- Reading back the line that is written for a storable item with a number below 2^53 gives the
-- item, its payload without the keys of the line itself and without nulls, its time as the float64
-- of its seconds gives it back, and the integers of the payload as a float64 holds them.
pub line_map_to_item-item_to_line_map :
    (now : ℕ) (it : TranscriptItem)
    → IsStorable it
    → line_map_to_item now (item_to_line_map it) ≡ ok (read_back it)
unfolding line_map_to_item item_to_line_map as_uint64 as_float64
line_map_to_item-item_to_line_map now it h =
    rw (id-ne-empty it.id h.item, thread-ne-empty it.thread_id h.thread, h.kind, h.item, h.thread)
      λ i. ok (record (read_back it) {
        seq = float_int_small it.seq h.number i;
        turn_id = turn-stored it.turn_id h.turn i;
        payload = payload-stored it i;
        at = time_or-eq now (time_to_unix_float it.at) h.time i;
      })
