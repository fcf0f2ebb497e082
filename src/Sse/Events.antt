-- ===== src/Sse/Events.antt =====
-- streamer.go: the event that a transcript item is sent as.
use buat_postingan.Base.{String, Option, none, some, str_eq, is_empty, ◌||◌, if◌then◌else◌}
use buat_postingan.Base.Int.{pos}
use buat_postingan.Float.{seconds_of}
use buat_postingan.Json.{Json, null, num, float, text, Payload}
use buat_postingan.Domain.{TranscriptItem}
use buat_postingan.Domain.ItemType

-- The data of an event: the map of an item, or a map that has it under "item".
pub data EventData : Type 0 where
  line : Payload → EventData
  wrapped : Payload → Payload → EventData

pub record Event : Type 0 where
  pub name : String
  pub data_of : EventData

abbrev or_core : Option Json → Option Json → Option Json
or_core none core = core
or_core (some v) core = some v

-- the fields that `itemToMap` sets before those of the payload
abbrev core_of : TranscriptItem → Payload
core_of it k =
    if str_eq k "seq"
    then some (num (pos it.seq))
    else if str_eq k "thread_id"
    then some (text it.thread_id)
    else if str_eq k "type"
    then some (text it.item_type)
    else if str_eq k "id"
    then some (text it.id)
    else if str_eq k "ts"
    then some (float (seconds_of it.at))
    else if str_eq k "turn_id"
    then (if is_empty it.turn_id then none else some (text it.turn_id))
    else none

-- `itemToMap`
unfoldable pub item_to_map : TranscriptItem → Payload
item_to_map it k = or_core (it.payload k) (core_of it k)

abbrev nil_or : Option Json → Option Json
nil_or none = some null
nil_or (some v) = some v

-- `wrapItem`
unfoldable pub wrap_item : Payload → EventData
wrap_item m =
    wrapped
      (λ k.
        if str_eq k "type"
          || str_eq k "seq"
          || str_eq k "thread_id"
          || str_eq k "turn_id"
          || str_eq k "ts"
        then nil_or (m k)
        else none)
      m

-- `mapItem`
unfoldable pub map_item : TranscriptItem → Event
unfolding item_to_map wrap_item
map_item it =
    let m = item_to_map it in
    if str_eq it.item_type ItemType.turn_started
    then record { name = "turn.started"; data_of = line m }
    else if str_eq it.item_type ItemType.turn_completed
    then record { name = "turn.completed"; data_of = line m }
    else if str_eq it.item_type ItemType.turn_failed
    then record { name = "turn.failed"; data_of = line m }
    else if str_eq it.item_type ItemType.turn_resumed
    then record { name = "turn.resumed"; data_of = line m }
    else if str_eq it.item_type ItemType.thread_started
    then record { name = "thread.started"; data_of = line m }
    else if str_eq it.item_type ItemType.user_message
        || str_eq it.item_type ItemType.agent_message
        || str_eq it.item_type ItemType.tool_call
        || str_eq it.item_type ItemType.tool_result
        || str_eq it.item_type ItemType.reasoning
    then record { name = "item.completed"; data_of = wrap_item m }
    else record { name = "item.updated"; data_of = line m }
