-- ===== src/Worker/Items.antt =====
-- worker.go: the items that a turn appends.
use buat_postingan.Base.{String, is_empty, trim_space, if◌then◌else◌}
use buat_postingan.Exec.{lift, ◌>>=◌}
use buat_postingan.Json.{text, obj, Fields, end, field}
use buat_postingan.Domain.{TranscriptItem, TurnJob}
use buat_postingan.Domain.Ids.{new_item_id}
use buat_postingan.Jsonl.Disk.{Os, M, now, fresh}
use buat_postingan.Jsonl.Store
use buat_postingan.Worker.{Deps, payload_of}

module _ (os : Os) where
  abbrev pub chosen_id : String → M String
  chosen_id item_id =
      if is_empty (trim_space item_id)
      then (do raw ← fresh os; lift (new_item_id raw))
      else lift (new_item_id item_id)

  -- `appendID`
  unfoldable pub append_id : TurnJob → String → String → Fields → M TranscriptItem
  append_id job typ item_id fields = do
    id ← chosen_id item_id
    at ← now os
    Store.append_item os job.thread_id (record {
      seq = 0;
      id = id;
      thread_id = job.thread_id;
      turn_id = job.turn_id;
      item_type = typ;
      payload = payload_of fields;
      at = at;
    })

  -- `append`
  unfoldable pub append : TurnJob → String → Fields → M TranscriptItem
  unfolding append_id
  append job typ fields = append_id job typ "" fields

-- the payload of `turn.failed`
abbrev pub failure : Deps → String → String → Fields
failure deps code message =
    field "error" (obj (field "code" (text code) (field "message" (text message) end)))
      (field "trace_id" (text deps.trace_id) end)

abbrev pub stopped_by_user : Deps → Fields
stopped_by_user deps = failure deps "interrupted" "Stopped by user"

-- a message that the runtime writes
abbrev pub runtime_message : String → Fields
runtime_message s = field "text" (text s) (field "origin" (text "runtime") end)
