-- ===== src/Worker/Frame/Rounds.antt =====
-- worker.go: the rounds of a turn, seen from a view that they leave alone.
use buat_postingan.Base.{
  ℕ, zero, suc, String, Bool, Option, none, some, List, [], ◌∷◌, ◌++◌, is_empty, trim_space, true,
  false, leb, ◌==◌, ◌&&◌, not,
}
use buat_postingan.Exec.{
  Keeps, Keeps-bind, Keeps-lift, Keeps-pure, Keeps-fail, Keeps-attempt, Keeps-if, Keeps-dropping,
}
use buat_postingan.Json.{field, end, text}
use buat_postingan.Domain.{TranscriptItem, TurnJob}
use buat_postingan.Domain.ItemType
use buat_postingan.Jsonl.Disk.{Os, World}
use buat_postingan.Worker.{
  Deps, Tools, ToolCall, LlmResult, ChatReply, chat_answer, chat_error, chat_cancelled,
}
use buat_postingan.Worker.Compact.{
  Plan, plan_compact, kept_summary, compact_messages, compact_payload,
}
use buat_postingan.Worker.Messages.{build_messages, envelope_to_map, tool_message}
use buat_postingan.Worker.Texts.{workspace_for_prompt}
use buat_postingan.Worker.Agent.{
  Chat, Loop, envelope_of, with_checkpoint, with_ids, run_tools, tool_round, text_round,
  answered_round, agent_round, agent_loop, finish, cut_off, after_tools, is_cancelled, poll_said,
  has_calls, keep_reasoning, replied_round, noted, planned, maybe_compact, configured, run_agent,
  max_rounds, nudged_by_repeat,
}
use buat_postingan.Worker.Items.{stopped_by_user}
use buat_postingan.Worker.Frame.{
  IsFramed, Spares, SparedBy, fresh-Keeps, ask-Keeps, execute-Keeps, is_requested-Keeps,
  get_thread-Keeps, append_id-Keeps, append-Keeps,
}

module _ {X : Type 0} (os : Os) (deps : Deps) (job : TurnJob) (f : World → X)
    (h : IsFramed os job.thread_id f) where
  cut_off-Keeps : (st : Loop) → Keeps f (cut_off os deps job st)
  cut_off-Keeps st =
      Keeps-dropping f _ _ (h.flag job.turn_id)
        (Keeps-bind f _ _ (append-Keeps os f job h _ _) (λ _. Keeps-pure f (true, st)))

  with_ids-Keeps : (calls : List ToolCall) → Keeps f (with_ids os deps job calls)
  unfolding with_ids
  with_ids-Keeps [] = Keeps-pure f []
  with_ids-Keeps (tc ∷ calls) =
      Keeps-bind f _ _
        (Keeps-if f (is_empty tc.call_id) _ _ (fresh-Keeps os job.thread_id f h.quiet)
          (Keeps-pure f tc.call_id))
        λ id.
          Keeps-bind f _ _ (with_ids-Keeps calls)
            λ rest. Keeps-pure f (record tc { call_id = id } ∷ rest)

  run_tools-Keeps :
      (tools : Tools) (safe : Spares f tools) (workspace : String) (resp : LlmResult)
      (calls : List ToolCall) (st : Loop)
      → Keeps f (run_tools os deps job tools workspace resp calls st)
  unfolding run_tools
  run_tools-Keeps tools safe workspace resp [] st = Keeps-pure f (false, st)
  run_tools-Keeps tools safe workspace resp (tc ∷ calls) st =
      Keeps-bind f _ _ (append-Keeps os f job h _ _) λ _.
        Keeps-bind f _ _ (execute-Keeps os job.thread_id f h.quiet tools workspace tc safe) λ reply.
          let envelope = envelope_to_map (envelope_of tc reply) in
          let result =
            field "call_id" (text tc.call_id)
              (field "envelope" envelope (field "executor" (text "host_tool") end)) in
          let told = record st {
            messages = st.messages ++ tool_message tc.call_id (deps.marshal envelope) ∷ [];
          } in
          Keeps-if f (is_cancelled reply) _ _ (cut_off-Keeps st) (
            Keeps-bind f _ _ (append-Keeps os f job h ItemType.tool_result result)
              (λ _. run_tools-Keeps tools safe workspace resp calls told))

  after_tools-Keeps : (r : Bool × Loop) → Keeps f (after_tools os deps job r)
  after_tools-Keeps (true, st) = Keeps-pure f (true, st)
  after_tools-Keeps (false, st) =
      Keeps-if f (leb 2 st.identical) _ _
        (Keeps-bind f _ _ (append-Keeps os f job h _ _) (λ _.
          Keeps-pure f (true, record (nudged_by_repeat os deps job st) { last_tool_only = false })))
        (Keeps-pure f (false, nudged_by_repeat os deps job st))

  tool_round-Keeps :
      (tools : Tools) (safe : Spares f tools) (workspace : String) (resp : LlmResult) (st : Loop)
      → Keeps f (tool_round os deps job tools workspace resp st)
  unfolding tool_round
  tool_round-Keeps tools safe workspace resp st =
      Keeps-bind f _ _ (with_ids-Keeps resp.tool_calls) λ calls.
        Keeps-bind f _ _ (run_tools-Keeps tools safe workspace resp calls _)
          λ r. after_tools-Keeps r

  text_round-Keeps :
      (last : Bool) (item_id : String) (resp : LlmResult) (st : Loop)
      → Keeps f (text_round os deps job last item_id resp st)
  unfolding text_round
  text_round-Keeps last item_id resp st =
      let answer = record st { last_tool_only = false } in
      Keeps-if f (is_empty (trim_space resp.text)) _ _
        (Keeps-if f (not st.nudged && not last) _ _ (Keeps-pure f _)
          (Keeps-bind f _ _ (append_id-Keeps os f job h _ _ _) (λ _. Keeps-pure f (true, answer))))
        (Keeps-bind f _ _ (append_id-Keeps os f job h _ _ _) (λ _. Keeps-pure f (true, answer)))

  keep_reasoning-Keeps : (resp : LlmResult) → Keeps f (keep_reasoning os deps job resp)
  keep_reasoning-Keeps resp =
      Keeps-if f (is_empty (trim_space resp.reasoning)) _ _ (Keeps-pure f tt)
        (Keeps-bind f _ _ (append-Keeps os f job h _ _) (λ _. Keeps-pure f tt))

  answered_round-Keeps :
      (tools : Tools) (safe : Spares f tools) (workspace : String) (last : Bool)
      (draft streamed : String) (resp : LlmResult) (st : Loop)
      → Keeps f (answered_round os deps job tools workspace last draft streamed resp st)
  unfolding answered_round
  answered_round-Keeps tools safe workspace last draft streamed resp st =
      Keeps-bind f _ _ (keep_reasoning-Keeps resp) λ _.
        Keeps-if f (has_calls resp.tool_calls) _ _
          (tool_round-Keeps tools safe workspace resp (noted resp st))
          (text_round-Keeps last _ resp (noted resp st))

  replied_round-Keeps :
      (tools : Tools) (safe : Spares f tools) (workspace : String) (last : Bool) (draft : String)
      (st : Loop) (reply : ChatReply)
      → Keeps f (replied_round os deps job tools workspace last draft st reply)
  replied_round-Keeps tools safe workspace last draft st (chat_answer resp streamed) =
      answered_round-Keeps tools safe workspace last draft streamed
        (deps.recover_calls resp streamed) st
  replied_round-Keeps tools safe workspace last draft st (chat_error e) = Keeps-fail f e
  replied_round-Keeps tools safe workspace last draft st chat_cancelled = cut_off-Keeps st

  agent_round-Keeps :
      (chat : Chat) (tools : Tools) (safe : Spares f tools) (workspace : String) (last : Bool)
      (st : Loop)
      → Keeps f (agent_round os deps job chat tools workspace last st)
  unfolding agent_round
  agent_round-Keeps chat tools safe workspace last st =
      Keeps-bind f _ _ (fresh-Keeps os job.thread_id f h.quiet) λ draft.
        Keeps-bind f _ _ (ask-Keeps os job.thread_id f h.quiet chat st.messages true st.pinned)
          λ reply. replied_round-Keeps tools safe workspace last draft st reply

  agent_loop-Keeps :
      (chat : Chat) (tools : Tools) (safe : Spares f tools) (workspace : String) (left rounds : ℕ)
      (st : Loop)
      → Keeps f (agent_loop os deps job chat tools workspace left rounds st)
  unfolding agent_loop
  agent_loop-Keeps chat tools safe workspace zero rounds st = Keeps-pure f (some (rounds, st))
  agent_loop-Keeps chat tools safe workspace (suc left) rounds st =
      Keeps-bind f _ _
        (Keeps-attempt f _ (is_requested-Keeps os job.thread_id f h.quiet job.turn_id))
        λ requested.
          Keeps-if f (poll_said requested) _ _
            (Keeps-dropping f _ _ (h.flag job.turn_id) (
              Keeps-bind f _ _ (append-Keeps os f job h ItemType.turn_failed (stopped_by_user deps))
                (λ _. Keeps-pure f none)))
            (Keeps-bind f _ _ (agent_round-Keeps chat tools safe workspace (left == 0) st) λ r.
              Keeps-if f r.0 _ _ (Keeps-pure f (some (suc rounds, r.1)))
                (agent_loop-Keeps chat tools safe workspace left (suc rounds) r.1))

  finish-Keeps : (limit : ℕ) (end : Option (ℕ × Loop)) → Keeps f (finish os deps job limit end)
  finish-Keeps limit none = Keeps-pure f tt
  finish-Keeps limit (some (rounds, st)) =
      Keeps-bind f _ _
        (Keeps-if f (leb limit rounds && st.last_tool_only) _ _
          (Keeps-bind f _ _ (append-Keeps os f job h _ _) (λ _. Keeps-pure f tt)) (Keeps-pure f tt))
        λ _. Keeps-bind f _ _ (append-Keeps os f job h _ _) (λ _. Keeps-pure f tt)

  planned-Keeps :
      (chat : Chat) (items : List TranscriptItem) (plan : Option Plan)
      → Keeps f (planned os deps job chat items plan)
  planned-Keeps chat items none = Keeps-pure f items
  planned-Keeps chat items (some plan) =
      Keeps-bind f _ _
        (ask-Keeps os job.thread_id f h.quiet chat (compact_messages deps plan.excerpt) false
          (trim_space job.provider_id))
        λ reply.
          Keeps-bind f _ _
            (Keeps-attempt f _ (
              append-Keeps os f job h ItemType.context_compacted
                (compact_payload deps plan (kept_summary deps (some reply) plan.excerpt))))
            λ item. Keeps-pure f (with_checkpoint os deps job items item)

  maybe_compact-Keeps :
      (chat : Chat) (items : List TranscriptItem) → Keeps f (maybe_compact os deps job chat items)
  unfolding maybe_compact
  maybe_compact-Keeps chat items = planned-Keeps chat items (plan_compact deps items)

  configured-Keeps :
      (chat : Option Chat) (tools : Option Tools)
      → SparedBy f tools
      → Keeps f (configured os deps job chat tools)
  configured-Keeps (some chat) (some tools) safe =
      Keeps-bind f _ _ (Keeps-lift f tools.schemas) λ _.
        Keeps-bind f _ _ (get_thread-Keeps os job.thread_id f h.quiet 0) λ snap.
          Keeps-bind f _ _ (maybe_compact-Keeps chat snap.items) λ items.
            Keeps-bind f _ _
              (Keeps-lift f (
                deps.inject_prompts (build_messages deps items)
                  (workspace_for_prompt job.workspace deps.config.workspace_root)))
              λ messages.
                Keeps-bind f _ _ (agent_loop-Keeps chat tools safe _ (max_rounds os deps job) 0 _)
                  λ r. finish-Keeps (max_rounds os deps job) r
  configured-Keeps (some chat) none safe = Keeps-fail f _
  configured-Keeps none tools safe = Keeps-fail f _

  pub run_agent-Keeps : SparedBy f deps.tools → Keeps f (run_agent os deps job)
  unfolding run_agent
  run_agent-Keeps safe = configured-Keeps deps.chat deps.tools safe
