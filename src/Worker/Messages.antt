-- ===== src/Worker/Messages.antt =====
-- worker.go: the messages that the model sees, made from the items of the thread.
pub mod Pictures
use buat_postingan.Base.{
  ℕ, zero, suc, String, Bool, true, false, Option, none, some, List, [], ◌∷◌, ◌++◌, ltb, leb, ◌==◌,
  ◌&&◌, not, str_eq, is_empty, if◌then◌else◌,
}
use Prim.Native.String.{◌++◌ as append}
use buat_postingan.Base.Int.{pos}
use buat_postingan.Json.{
  as_nat, Json, null, bool, num, text, arr, obj, Elements, nil, cons, Fields, end, field, Payload,
  as_text,
}
use buat_postingan.Domain.{TranscriptItem}
use buat_postingan.Domain.ItemType
use buat_postingan.Worker.{Deps, ToolCall, ModelRef, TokenUsage, LlmResult, ToolEnvelope}
use buat_postingan.Worker.Content.{user_llm_content, carried}
use buat_postingan.Worker.Texts.{join}

-- the message of a role with a content
abbrev pub message : String → Json → Json
message role content = obj (field "role" (text role) (field "content" content end))

abbrev pub or_null : Option Json → Json
or_null none = null
or_null (some v) = v

abbrev pub call_entry : String → String → String → Json
call_entry id name arguments = obj (
    field "id" (text id) (
      field "type" (text "function") (
        field "function" (obj (field "name" (text name) (field "arguments" (text arguments) end)))
          end)))

abbrev pub calls_message : Elements → Json
calls_message calls =
    obj
      (field "role" (text "assistant") (field "content" null (field "tool_calls" (arr calls) end)))

abbrev pub tool_message : String → String → Json
tool_message id content = obj (
    field "role" (text "tool")
      (field "tool_call_id" (text id) (field "content" (text content) end)))

module _ (deps : Deps) where
  abbrev user_messages : Json × ℕ → List Json × ℕ
  user_messages r = (message "user" r.0 ∷ [], r.1)

  -- `appendMessageFromItem`: what it appends, and the images in the list so far
  unfoldable pub message_of_item : TranscriptItem → ℕ → List Json × ℕ
  unfolding user_llm_content
  message_of_item it total =
      if str_eq it.item_type ItemType.user_message
      then user_messages (user_llm_content deps it.payload total)
      else if str_eq it.item_type ItemType.agent_message
      then (message "assistant" (text (as_text (it.payload "text"))) ∷ [], total)
      else if str_eq it.item_type ItemType.tool_call
      then (
        calls_message (
              cons
                (call_entry (as_text (it.payload "call_id")) (as_text (it.payload "name"))
                  (deps.marshal (or_null (it.payload "arguments"))))
                nil)
            ∷ [],
        total,
      )
      else if str_eq it.item_type ItemType.tool_result
      then (
        tool_message (as_text (it.payload "call_id"))
              (deps.marshal (or_null (it.payload "envelope")))
            ∷ [],
        total,
      )
      else ([], total)

  unfoldable pub messages_of : List TranscriptItem → ℕ → List Json
  unfolding message_of_item
  messages_of [] total = []
  messages_of (it ∷ items) total = let r = message_of_item it total in r.0 ++ messages_of items r.1

-- The last checkpoint and its position among the items, from the position of the first one.
unfoldable pub last_compact :
    ℕ → List TranscriptItem → Option (ℕ × TranscriptItem) → Option (ℕ × TranscriptItem)
last_compact i [] found = found
last_compact i (it ∷ items) found =
    last_compact (suc i) items
      (if str_eq it.item_type ItemType.context_compacted then some (i, it) else found)

-- Whether the loop of `buildMessages` passes over the item at a position.
unfoldable pub is_compacted : ℕ × TranscriptItem → ℕ → ℕ → TranscriptItem → Bool
is_compacted compact through_seq i it =
    if str_eq it.item_type ItemType.context_compacted
    then true
    else if ltb 0 through_seq
    then (if it.seq == 0 then ltb i compact.0 else leb it.seq through_seq)
    else ltb i compact.0 && not (str_eq it.turn_id compact.1.turn_id)

unfoldable pub uncompacted : ℕ × TranscriptItem → ℕ → ℕ → List TranscriptItem → List TranscriptItem
unfolding is_compacted
uncompacted compact through_seq i [] = []
uncompacted compact through_seq i (it ∷ items) =
    let rest = uncompacted compact through_seq (suc i) items in
    if is_compacted compact through_seq i it then rest else it ∷ rest

-- `asUint64` of compact.go, on the numbers of a payload
abbrev pub through_seq_of : TranscriptItem → ℕ
through_seq_of compact = as_nat (compact.payload "compacted_through_seq")

abbrev pub summary_of : TranscriptItem → Json
summary_of compact =
    message "system" (text (append "Conversation summary:\n" (as_text (compact.payload "text"))))

module _ (deps : Deps) where
  abbrev pub messages_after : List TranscriptItem → Option (ℕ × TranscriptItem) → List Json
  messages_after items none = messages_of deps items 0
  messages_after items (some compact) =
      summary_of compact.1
      ∷ messages_of deps (uncompacted compact (through_seq_of compact.1) 0 items) 0

  -- `buildMessages`
  unfoldable pub build_messages : List TranscriptItem → List Json
  unfolding messages_of last_compact uncompacted as_nat
  build_messages items = messages_after items (last_compact 0 items none)

  unfoldable pub call_entries : List ToolCall → Elements
  call_entries [] = nil
  call_entries (tc ∷ calls) =
      cons (call_entry tc.call_id tc.name (deps.marshal tc.arguments)) (call_entries calls)

  -- `assistantToolMessage`, of calls that have ids
  abbrev pub assistant_tool_message : List ToolCall → Json
  assistant_tool_message calls = calls_message (call_entries calls)

  unfoldable pub fingerprint_parts : List ToolCall → List String
  fingerprint_parts [] = []
  fingerprint_parts (tc ∷ calls) =
      append tc.name (append "\0" (deps.marshal tc.arguments)) ∷ fingerprint_parts calls

  -- `toolCallsFingerprint`
  unfoldable pub tool_calls_fingerprint : List ToolCall → String
  unfolding fingerprint_parts join
  tool_calls_fingerprint calls = join "\u{1}" (fingerprint_parts calls)

abbrev pub or_unknown : String → String
or_unknown s = if is_empty s then "unknown" else s

-- `modelMetadata`
unfoldable pub model_metadata : LlmResult → String → Json
model_metadata resp role = obj (
    field "provider"
      (text (
        or_unknown
          (if is_empty resp.model.provider then resp.provider_id else resp.model.provider)))
      (field "id" (text (or_unknown resp.model.id))
        (field "api" (text (or_unknown resp.model.api)) (field "role" (text role) end))))

-- `usageMap`
unfoldable pub usage_map : TokenUsage → Json
usage_map u = obj (
    field "input_tokens" (num (pos u.input_tokens)) (
      field "cached_input_tokens" (num (pos u.cached_input_tokens)) (
        field "cache_write_tokens" (num (pos u.cache_write_tokens)) (
          field "output_tokens" (num (pos u.output_tokens))
            (field "reasoning_output_tokens" (num (pos u.reasoning_output_tokens)) end)))))

-- `emptyUsage`
unfoldable pub empty_usage : Json
unfolding usage_map
empty_usage = usage_map (record {
  input_tokens = 0;
  output_tokens = 0;
  cached_input_tokens = 0;
  cache_write_tokens = 0;
  reasoning_output_tokens = 0;
})

-- `envelopeToMap`
unfoldable pub envelope_to_map : ToolEnvelope → Json
envelope_to_map e = obj (
    field "ok" (bool e.success) (
      field "tool" (text e.tool)
        (field "data" e.content (carried "error" e.error (carried "meta" e.meta end)))))
