-- ===== src/Worker/Agent.antt =====
-- worker.go: the rounds of a turn, each a call of the model and of the tools that it asks for.
use buat_postingan.Base.{
  ℕ, zero, suc, ◌+◌, String, Bool, true, false, Option, none, some, List, [], ◌∷◌, ◌++◌, leb, ◌==◌,
  ◌&&◌, not, str_eq, is_empty, trim_space, if◌then◌else◌,
}
use buat_postingan.Apperr.{plain}
use buat_postingan.Exec.{Result, ok, err, pure, fail, lift, attempt, dropping, ◌>>=◌, ◌>>◌}
use buat_postingan.Json.{Json, text, Fields, end, field, obj}
use buat_postingan.Domain.{TranscriptItem, TurnJob}
use buat_postingan.Domain.ItemType
use buat_postingan.Jsonl.Disk.{Os, M, fresh}
use buat_postingan.Jsonl.Store
use buat_postingan.Jsonl.Interrupt
use buat_postingan.Worker.{
  Deps, Tools, ToolCall, ToolEnvelope, LlmResult, ChatReply, chat_answer, chat_error,
  chat_cancelled, ToolReply, tool_envelope, tool_error, tool_cancelled,
}
use buat_postingan.Worker.Texts.{cut_runes, workspace_for_prompt}
use buat_postingan.Worker.Messages.{
  message, build_messages, assistant_tool_message, tool_message, tool_calls_fingerprint,
  model_metadata, usage_map, empty_usage, envelope_to_map,
}
use buat_postingan.Worker.Compact.{
  Plan, plan_compact, kept_summary, compact_messages, compact_payload,
}
use buat_postingan.Worker.Items.{append_id, append, stopped_by_user, runtime_message}

-- The variables of the loop of `runAgent`.
pub record Loop : Type 0 where
  pub messages : List Json
  pub pinned : String
  pub last_usage : Json
  pub last_model : Option Json
  pub last_tool_only : Bool
  pub prev_fingerprint : String
  pub identical : ℕ
  pub nudged : Bool

-- `LLMRouter.Chat`
abbrev pub Chat : Type 0
Chat = ℕ → List Json → Bool → String → ChatReply

abbrev pub ask : Chat → List Json → Bool → String → M ChatReply
ask chat messages with_tools pinned w =
    (ok (chat w.tick messages with_tools pinned), record w { tick = suc w.tick })

abbrev pub execute : Tools → String → String → ToolCall → M ToolReply
execute tools tid workspace call w =
    let r = tools.execute tid workspace call w in (ok r.0, record r.1 { tick = suc w.tick })

abbrev pub envelope_of : ToolCall → ToolReply → ToolEnvelope
envelope_of tc (tool_envelope e) = e
envelope_of tc (tool_error why) = record {
  success = false;
  tool = tc.name;
  content = Json.null;
  error = some (obj (field "code" (text "tool_error") (field "message" (text why) end)));
  meta = none;
}
envelope_of tc tool_cancelled = record {
  success = false;
  tool = tc.name;
  content = Json.null;
  error = none;
  meta = none;
}

abbrev pub is_cancelled : ToolReply → Bool
is_cancelled tool_cancelled = true
is_cancelled _ = false

abbrev pub poll_said : Result Bool → Bool
poll_said (ok b) = b
poll_said (err e) = false

abbrev pub has_calls : List ToolCall → Bool
has_calls [] = false
has_calls (tc ∷ calls) = true

abbrev pub repeat_nudge : String
repeat_nudge =
    "You repeated the same tool call with identical arguments. The result is already in the conversation. Answer the user now, or call a different tool / different arguments (e.g. list_dir path=\"writing\")."

abbrev pub empty_nudge : String
empty_nudge =
    "You produced reasoning but no user-facing answer and no tool call. Answer the user now in plain text, or call a tool with concrete arguments."

-- the answer without text, with the reasoning if there was some
abbrev pub empty_answer : LlmResult → Json
empty_answer resp = obj (
    field "role" (text "assistant") (
      field "content" (text "") (
        if is_empty (trim_space resp.reasoning)
        then end
        else field "reasoning" (text resp.reasoning) end)))

-- What the loop remembers of an answer.
abbrev pub noted : LlmResult → Loop → Loop
noted resp st = record st {
  pinned = if is_empty resp.provider_id then st.pinned else resp.provider_id;
  last_usage = usage_map resp.usage;
  last_model = some (model_metadata resp "response");
}

module _ (os : Os) (deps : Deps) (job : TurnJob) where
  -- The poll of the interrupt flag cleared it and cancelled the round: the turn is written as
  -- failed, and the loop is left by `break`.
  abbrev pub cut_off : Loop → M (Bool × Loop)
  cut_off st =
      dropping (Interrupt.clear os job.thread_id job.turn_id)
        (do append os job ItemType.turn_failed (stopped_by_user deps); pure (true, st))

  unfoldable pub with_ids : List ToolCall → M (List ToolCall)
  with_ids [] = pure []
  with_ids (tc ∷ calls) = do
    id ← if is_empty tc.call_id then fresh os else pure tc.call_id
    rest ← with_ids calls
    pure (record tc { call_id = id } ∷ rest)

  -- The calls of an answer, one after the other.
  unfoldable pub run_tools : Tools → String → LlmResult → List ToolCall → Loop → M (Bool × Loop)
  run_tools tools workspace resp [] st = pure (false, st)
  run_tools tools workspace resp (tc ∷ calls) st = do
    append os job ItemType.tool_call (
        field "call_id" (text tc.call_id) (
          field "name" (text tc.name)
            (field "arguments" tc.arguments (field "model" (model_metadata resp "planner") end))))
    reply ← execute tools job.thread_id workspace tc
    if is_cancelled reply then cut_off st else do
      let envelope = envelope_to_map (envelope_of tc reply)
      append os job ItemType.tool_result (
          field "call_id" (text tc.call_id)
            (field "envelope" envelope (field "executor" (text "host_tool") end)))
      run_tools tools workspace resp calls (record st {
        messages = st.messages ++ tool_message tc.call_id (deps.marshal envelope) ∷ [];
      })

  abbrev pub nudged_by_repeat : Loop → Loop
  nudged_by_repeat st =
      if leb 1 st.identical
      then record st { messages = st.messages ++ message "system" (text repeat_nudge) ∷ [] }
      else st

  -- What follows the tools of a round.
  abbrev pub after_tools : Bool × Loop → M (Bool × Loop)
  after_tools (true, st) = pure (true, st)
  after_tools (false, st) =
      if leb 2 st.identical
      then (do
        append os job ItemType.agent_message (
            runtime_message
              "Stopped: repeated identical tool calls. Please refine the question or try a different path/query.")
        pure (true, record (nudged_by_repeat st) { last_tool_only = false }))
      else pure (false, nudged_by_repeat st)

  -- A round in which the model asks for tools.
  unfoldable pub tool_round : Tools → String → LlmResult → Loop → M (Bool × Loop)
  unfolding with_ids run_tools
  tool_round tools workspace resp st = do
    let fp = tool_calls_fingerprint deps resp.tool_calls
    let again = not (is_empty fp) && str_eq fp st.prev_fingerprint
    calls ← with_ids resp.tool_calls
    r ← run_tools tools workspace resp calls (record st {
      messages = st.messages ++ assistant_tool_message deps calls ∷ [];
      last_tool_only = true;
      prev_fingerprint = fp;
      identical = if again then st.identical + 1 else 0;
    })
    after_tools r

  -- A round in which the model answers, `last` when it is the last one.
  unfoldable pub text_round : Bool → String → LlmResult → Loop → M (Bool × Loop)
  text_round last item_id resp st =
      let s = trim_space resp.text in
      let meta = model_metadata resp "response" in
      if is_empty s
      then (if not st.nudged && not last
          then pure (
            false,
            record st {
              nudged = true;
              messages =
                  st.messages ++ empty_answer resp ∷ message "system" (text empty_nudge) ∷ [];
            },
          )
          else (do
            append_id os job ItemType.agent_message "" (
                field "text" (text "(empty model response)") (
                  field "origin" (text "runtime")
                    (field "model" meta (field "trace_id" (text deps.trace_id) end))))
            pure (true, record st { last_tool_only = false })))
      else (do
        append_id os job ItemType.agent_message item_id
            (field "text" (text s) (field "model" meta end))
        pure (true, record st { last_tool_only = false }))

  -- The reasoning of an answer, if there is some.
  abbrev pub keep_reasoning : LlmResult → M (Unit {0})
  keep_reasoning resp = if is_empty (trim_space resp.reasoning) then pure tt else do
    append os job ItemType.reasoning (
        field "text" (text (cut_runes 12000 resp.reasoning))
          (field "model" (model_metadata resp "reasoning") end))
    pure tt

  unfoldable pub answered_round :
      Tools → String → Bool → String → String → LlmResult → Loop → M (Bool × Loop)
  unfolding tool_round text_round
  answered_round tools workspace last draft streamed resp st = do
    keep_reasoning resp
    if has_calls resp.tool_calls
        then tool_round tools workspace resp (noted resp st)
        else text_round last (if is_empty streamed then "" else draft) resp (noted resp st)

  abbrev pub replied_round : Tools → String → Bool → String → Loop → ChatReply → M (Bool × Loop)
  replied_round tools workspace last draft st (chat_answer resp streamed) =
      answered_round tools workspace last draft streamed (deps.recover_calls resp streamed) st
  replied_round tools workspace last draft st (chat_error e) = fail e
  replied_round tools workspace last draft st chat_cancelled = cut_off st

  -- The function of a round: whether to leave the loop.
  unfoldable pub agent_round : Chat → Tools → String → Bool → Loop → M (Bool × Loop)
  unfolding answered_round
  agent_round chat tools workspace last st = do
    draft ← fresh os
    reply ← ask chat st.messages true st.pinned
    replied_round tools workspace last draft st reply

  -- The loop, with the rounds that are left and those that began; `none` when it returned.
  unfoldable pub agent_loop : Chat → Tools → String → ℕ → ℕ → Loop → M (Option (ℕ × Loop))
  unfolding agent_round
  agent_loop chat tools workspace zero rounds st = pure (some (rounds, st))
  agent_loop chat tools workspace (suc left) rounds st = do
    requested ← attempt (Interrupt.is_requested os job.thread_id job.turn_id)
    if poll_said requested
        then dropping (Interrupt.clear os job.thread_id job.turn_id)
            (do append os job ItemType.turn_failed (stopped_by_user deps); pure none)
        else (do
          r ← agent_round chat tools workspace (left == 0) st
          if r.0
              then pure (some (suc rounds, r.1))
              else agent_loop chat tools workspace left (suc rounds) r.1)

  abbrev pub model_field : Option Json → Fields
  model_field none = end
  model_field (some m) = field "model" m end

  -- What follows the loop.
  abbrev pub finish : ℕ → Option (ℕ × Loop) → M (Unit {0})
  finish limit none = pure tt
  finish limit (some (rounds, st)) = do
    if leb limit rounds && st.last_tool_only
        then (do
          append os job ItemType.agent_message
              (runtime_message "Stopped: max tool rounds reached. Please refine the question.")
          pure tt)
        else pure tt
    append os job ItemType.turn_completed (field "usage" st.last_usage (model_field st.last_model))
    pure tt

  -- an error of the checkpoint's append is dropped
  abbrev pub with_checkpoint : List TranscriptItem → Result TranscriptItem → List TranscriptItem
  with_checkpoint items (ok item) = items ++ item ∷ []
  with_checkpoint items (err e) = items

  abbrev pub planned : Chat → List TranscriptItem → Option Plan → M (List TranscriptItem)
  planned chat items none = pure items
  planned chat items (some plan) = do
    reply ← ask chat (compact_messages deps plan.excerpt) false (trim_space job.provider_id)
    item ← attempt (
        append os job ItemType.context_compacted
          (compact_payload deps plan (kept_summary deps (some reply) plan.excerpt)))
    pure (with_checkpoint items item)

  -- `maybeCompact`
  unfoldable pub maybe_compact : Chat → List TranscriptItem → M (List TranscriptItem)
  unfolding plan_compact kept_summary
  maybe_compact chat items = planned chat items (plan_compact deps items)

  abbrev pub max_rounds : ℕ
  max_rounds = if deps.config.max_tool_rounds == 0 then 8 else deps.config.max_tool_rounds

  abbrev pub configured : Option Chat → Option Tools → M (Unit {0})
  configured (some chat) (some tools) = do
    lift tools.schemas
    snap ← Store.get_thread os job.thread_id 0
    items ← maybe_compact chat snap.items
    let workspace = workspace_for_prompt job.workspace deps.config.workspace_root
    messages ← lift (deps.inject_prompts (build_messages deps items) workspace)
    r ← agent_loop chat tools workspace max_rounds 0 (record {
      messages = messages;
      pinned = trim_space job.provider_id;
      last_usage = empty_usage;
      last_model = none;
      last_tool_only = false;
      prev_fingerprint = "";
      identical = 0;
      nudged = false;
    })
    finish max_rounds r
  configured _ _ = fail (plain "llm/tools not configured")

  -- `runAgent`
  unfoldable pub run_agent : M (Unit {0})
  unfolding maybe_compact agent_loop
  run_agent = configured deps.chat deps.tools
