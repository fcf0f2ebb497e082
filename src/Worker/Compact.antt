-- ===== src/Worker/Compact.antt =====
-- compact.go: a checkpoint that stands for the older turns of a thread.
pub mod Checkpoint
pub mod Context
use buat_postingan.Base.{
  ℕ, zero, suc, ◌+◌, ◌-◌, ◌/◌, max, String, Bool, true, false, Option, none, some, List, [], ◌∷◌,
  ◌++◌, ltb, leb, ◌==◌, ◌&&◌, ◌||◌, not, str_eq, is_empty, trim_space, length, if◌then◌else◌,
}
use Prim.Native.String.{◌++◌ as append}
use buat_postingan.Base.Int.{pos}
use buat_postingan.Exec.{Result, ok, err}
use buat_postingan.Config.Effort.{one_of}
use buat_postingan.Json.{Json, num, text, Fields, end, field, Payload, as_text}
use buat_postingan.Domain.{TranscriptItem}
use buat_postingan.Domain.ItemType
use buat_postingan.Worker.{Deps, WorkerConfig, ChatReply, chat_answer, chat_error, chat_cancelled}
use buat_postingan.Worker.Texts.{clamp_runes, byte_length, join}
use buat_postingan.Worker.Messages.{message, or_null}

module _ (deps : Deps) where
  abbrev text_bytes : Option Json → ℕ
  text_bytes v = byte_length (as_text v)

  abbrev json_bytes : Option Json → ℕ
  json_bytes none = 0
  json_bytes (some v) = byte_length (deps.marshal v)

  unfoldable pub item_chars : List TranscriptItem → ℕ
  unfolding byte_length
  item_chars [] = 0
  item_chars (it ∷ items) =
      text_bytes (it.payload "text")
      + json_bytes (it.payload "arguments")
      + json_bytes (it.payload "envelope")
      + item_chars items

  -- `estimateItemTokens`
  unfoldable pub estimate_item_tokens : List TranscriptItem → ℕ
  unfolding item_chars
  estimate_item_tokens items = (item_chars items + 3) / 4

-- the loop of `uniqueTurnIDs`, with the ids that were seen
unfoldable pub turn_ids_from : List String → List TranscriptItem → List String
unfolding one_of
turn_ids_from seen [] = []
turn_ids_from seen (it ∷ items) =
    let skip = turn_ids_from seen items in
    let keep = it.turn_id ∷ turn_ids_from (it.turn_id ∷ seen) items in
    if is_empty it.turn_id || one_of seen it.turn_id then skip else keep

-- `uniqueTurnIDs`
unfoldable pub unique_turn_ids : List TranscriptItem → List String
unfolding turn_ids_from
unique_turn_ids items = turn_ids_from [] items

-- `xs[:n]`
unfoldable pub first : ℕ → List String → List String
first zero xs = []
first (suc n) [] = []
first (suc n) (x ∷ xs) = x ∷ first n xs

-- the items of the old turns
unfoldable pub items_in : List String → List TranscriptItem → List TranscriptItem
unfolding one_of
items_in turns [] = []
items_in turns (it ∷ items) =
    let rest = items_in turns items in if one_of turns it.turn_id then it ∷ rest else rest

unfoldable pub greatest : List TranscriptItem → ℕ
greatest [] = 0
greatest (it ∷ items) = max it.seq (greatest items)

module _ (deps : Deps) where
  -- What an item adds to the excerpt, if anything.
  unfoldable pub excerpt_part : TranscriptItem → List String
  unfolding clamp_runes
  excerpt_part it =
      let s = trim_space (as_text (it.payload "text")) in
      let name = as_text (it.payload "name") in
      if str_eq it.item_type ItemType.context_compacted
      then (if is_empty s then [] else s ∷ [])
      else if str_eq it.item_type ItemType.user_message
      then append "User: " s ∷ []
      else if str_eq it.item_type ItemType.agent_message
      then append "Assistant: " s ∷ []
      else if str_eq it.item_type ItemType.tool_call
      then append "Tool call: " (if is_empty name then "unknown" else name) ∷ []
      else if str_eq it.item_type ItemType.tool_result
      then append "Tool result: " (clamp_runes (deps.marshal (or_null (it.payload "envelope"))) 400)
        ∷ []
      else if str_eq it.item_type ItemType.reasoning
      then (if is_empty s then [] else append "Reasoning: " (clamp_runes s 400) ∷ [])
      else []

  unfoldable pub excerpt_parts : List TranscriptItem → List String
  unfolding excerpt_part
  excerpt_parts [] = []
  excerpt_parts (it ∷ items) = excerpt_part it ++ excerpt_parts items

  -- `buildCompactExcerpt`
  unfoldable pub build_compact_excerpt : List TranscriptItem → ℕ → String
  unfolding excerpt_parts join clamp_runes
  build_compact_excerpt items max_chars =
      clamp_runes (trim_space (join "\n" (excerpt_parts items))) max_chars

-- What a checkpoint is made of.
pub record Plan : Type 0 where
  pub estimate : ℕ
  pub through_seq : ℕ
  pub excerpt : String

abbrev pub threshold : WorkerConfig → ℕ
threshold cfg = max 1000 (cfg.max_input_tokens - cfg.reserve_tokens)

abbrev pub recent_turns : WorkerConfig → ℕ
recent_turns cfg = if cfg.recent_turns == 0 then 4 else cfg.recent_turns

-- The items of the turns that are not recent.
unfoldable pub old_items : WorkerConfig → List TranscriptItem → List TranscriptItem
unfolding unique_turn_ids first items_in
old_items cfg items =
    let turns = unique_turn_ids items in
    items_in (first (length turns - recent_turns cfg) turns) items

abbrev pub no_items : List TranscriptItem → Bool
no_items [] = true
no_items (it ∷ items) = false

module _ (deps : Deps) where
  -- The part of `maybeCompact` before the summary: nothing to do, or what to summarize.
  unfoldable pub plan_compact : List TranscriptItem → Option Plan
  unfolding estimate_item_tokens old_items greatest build_compact_excerpt
  plan_compact items =
      let cfg = deps.config in
      let old = old_items cfg items in
      let excerpt = build_compact_excerpt deps old cfg.summary_max_chars in
      if not cfg.compaction_enabled || cfg.llm_stub
      then none
      else if leb (estimate_item_tokens deps items) (threshold cfg)
      then none
      else if leb (length (unique_turn_ids items)) (recent_turns cfg)
      then none
      else if no_items old
      then none
      else if is_empty (trim_space excerpt)
      then none
      else some (record {
        estimate = estimate_item_tokens deps items;
        through_seq = greatest old;
        excerpt = excerpt;
      })

  abbrev summary_or : ChatReply → String → String × String
  summary_or (chat_answer resp streamed) excerpt =
      if is_empty (trim_space resp.text)
      then (excerpt, "extractive")
      else (trim_space resp.text, "llm")
  summary_or (chat_error e) excerpt = (excerpt, "extractive")
  summary_or chat_cancelled excerpt = (excerpt, "extractive")

  -- `summarizeForCompact`, from what the model answered, if there is one
  unfoldable pub summarize_for_compact : Option ChatReply → String → String × String
  summarize_for_compact none excerpt = (excerpt, "extractive")
  summarize_for_compact (some reply) excerpt = summary_or reply excerpt

  -- The summary that is kept, and how it was made.
  unfoldable pub kept_summary : Option ChatReply → String → String × String
  unfolding summarize_for_compact clamp_runes
  kept_summary reply excerpt =
      let r = summarize_for_compact reply excerpt in
      let s = clamp_runes r.0 deps.config.summary_max_chars in
      if is_empty (trim_space s)
      then (clamp_runes excerpt deps.config.summary_max_chars, "extractive")
      else (s, r.1)

  -- The messages that ask for a summary.
  abbrev pub compact_messages : String → List Json
  compact_messages excerpt =
      message "system" (text deps.compact_prompt) ∷ message "user" (text excerpt) ∷ []

  -- The payload of the checkpoint.
  abbrev pub compact_payload : Plan → String × String → Fields
  compact_payload plan summary = field "text" (text summary.0) (
      field "origin" (text "runtime") (
        field "via" (text summary.1) (
          field "compacted_through_seq" (num (pos plan.through_seq))
            (field "estimated_input_tokens" (num (pos plan.estimate)) end))))
