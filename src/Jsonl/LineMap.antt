-- ===== src/Jsonl/LineMap.antt =====
-- line.go: a transcript item as the object of its line.
pub mod RoundTrip
use buat_postingan.Base.{
  ℕ, suc, ◌-◌, String, Bool, true, false, Option, none, some, str_eq, is_empty, ◌||◌, ◌==◌,
  if◌then◌else◌,
}
use buat_postingan.Base.Int.{ℤ, pos, negsuc}
use buat_postingan.Apperr.{plain}
use buat_postingan.Exec.{Result, ok, err}
use mathlib.Core.Option as Option
use buat_postingan.Float.{float_of, float_int, int_of}
use buat_postingan.Jsonl.Rows.{time_to_unix_float, unix_float_to_time}
use buat_postingan.Json.{
  Json, null, num, float, text, arr, obj, Elements, nil, cons, Fields, end, field, Payload, as_text,
}
use buat_postingan.Domain.{TranscriptItem}
use buat_postingan.Domain.Ids.{new_thread_id, new_turn_id, new_item_id}

-- `coreLineKeys`
unfoldable pub is_core_line_key : String → Bool
is_core_line_key k =
    str_eq k "seq"
    || str_eq k "ts"
    || str_eq k "thread_id"
    || str_eq k "turn_id"
    || str_eq k "type"
    || str_eq k "id"

abbrev pub drop_null : Option Json → Option Json
drop_null (some null) = none
drop_null v = v

-- `itemToLineMap`
unfoldable pub item_to_line_map : TranscriptItem → Payload
item_to_line_map item k =
    if str_eq k "seq"
    then some (num (pos item.seq))
    else if str_eq k "ts"
    then some (float (time_to_unix_float item.at))
    else if str_eq k "thread_id"
    then some (text item.thread_id)
    else if str_eq k "type"
    then some (text item.item_type)
    else if str_eq k "id"
    then some (text item.id)
    else if str_eq k "turn_id"
    then (if is_empty item.turn_id then none else some (text item.turn_id))
    else drop_null (item.payload k)

-- `asUint64` of a number that `encoding/json` has read as a float64, below 2^64
unfoldable pub as_uint64 : Option Json → ℕ
as_uint64 (some (num (pos n))) = float_int n
as_uint64 (some (float v)) = int_of v
as_uint64 _ = 0

-- `asFloat64`; `unixFloatToTime` takes a negative number like 0
unfoldable pub as_float64 : Option Json → ℕ
as_float64 (some (num (pos n))) = float_of n
as_float64 (some (float v)) = v
as_float64 _ = 0

-- an integer that `encoding/json` has read as a float64
abbrev pub float_integer : ℤ → ℤ
float_integer (pos n) = pos (float_int n)
float_integer (negsuc n) = negsuc (float_int (suc n) - 1)

-- A value as `encoding/json` reads it back, its integers by way of float64
unfoldable mutual
  pub json_read : Json → Json
  json_read (num z) = num (float_integer z)
  json_read (arr es) = arr (elements_read es)
  json_read (obj fs) = obj (fields_read fs)
  json_read v = v

  pub elements_read : Elements → Elements
  elements_read nil = nil
  elements_read (cons v es) = cons (json_read v) (elements_read es)

  pub fields_read : Fields → Fields
  fields_read end = end
  fields_read (field k v fs) = field k (json_read v) (fields_read fs)

abbrev pub turn_or_none : Result String → String
turn_or_none (ok turn) = turn
turn_or_none (err e) = ""

abbrev pub turn_field : Option Json → String
turn_field v = if is_empty (as_text v) then "" else turn_or_none (new_turn_id (as_text v))

-- the time of the line, `now` if it is the zero time
abbrev pub time_or : ℕ → ℕ → ℕ
time_or now v = if v == 0 then now else unix_float_to_time v

read_item : ℕ → Payload → String → String → String → TranscriptItem
unfolding as_uint64 as_float64 is_core_line_key json_read
read_item now m id tid type_raw = record {
  seq = as_uint64 (m "seq");
  id = id;
  thread_id = tid;
  turn_id = turn_field (m "turn_id");
  item_type = type_raw;
  payload = λ k. if is_core_line_key k then none else Option.map json_read (m k);
  at = time_or now (as_float64 (m "ts"));
}

abbrev with_ids :
    Result String → Result String → (String → String → TranscriptItem) → Result TranscriptItem
with_ids (ok id) (ok tid) k = ok (k id tid)
with_ids (ok id) (err e) k = err e
with_ids (err e) _ k = err e

-- `lineMapToItem`; `now` stands in for a missing time
unfoldable pub line_map_to_item : ℕ → Payload → Result TranscriptItem
unfolding read_item
line_map_to_item now m =
    let id_raw = as_text (m "id") in
    let tid_raw = as_text (m "thread_id") in
    let type_raw = as_text (m "type") in
    if is_empty id_raw || is_empty tid_raw || is_empty type_raw
    then err (plain "incomplete line")
    else with_ids (new_item_id id_raw) (new_thread_id tid_raw)
        (λ id tid. read_item now m id tid type_raw)
