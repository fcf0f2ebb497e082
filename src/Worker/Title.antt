-- ===== src/Worker/Title.antt =====
-- title.go: the title that a conversation gets after its first completed turn.
pub mod Valid
use buat_postingan.Base.{
  ℕ, zero, suc, ◌+◌, String, Bool, true, false, Option, none, some, List, [], ◌∷◌, ◌++◌, ◌==◌, ◌&&◌,
  ◌||◌, not, str_eq, is_empty, is_space, trim_space, if◌then◌else◌,
}
use Prim.Native.Char.{code}
use Prim.Native.String.{◌++◌ as append}
use buat_postingan.Apperr.{plain}
use buat_postingan.Exec.{Result, ok, err, pure, fail, lift, attempt, dropping, ◌>>=◌, ◌>>◌}
use buat_postingan.Json.{Json, text, as_text}
use buat_postingan.Domain.{
  TranscriptItem, ConversationMeta, ThreadSnapshot, TurnJob, title_pending, title_auto,
  title_manual, conversation_deleted,
}
use buat_postingan.Domain.Ids.{new_title}
use buat_postingan.Domain.ItemType
use buat_postingan.Jsonl.Disk.{Os, M, now}
use buat_postingan.Jsonl.Store
use buat_postingan.Webchat.Retryable.{find_user_message}
use buat_postingan.Worker.{Deps, LlmResult, ChatReply, chat_answer, chat_error, chat_cancelled}
use buat_postingan.Worker.Texts.{clamp_runes, truncate_runes}
use buat_postingan.Worker.Messages.{message}
use buat_postingan.Worker.Agent.{Chat, ask}

-- `strings.Join(strings.Fields(s), " ")`, of a text that starts with no space
unfoldable pub collapse_spaces : Bool → String → String
collapse_spaces gap String.[] = ""
collapse_spaces gap (String.◌∷◌ c s) =
    let skipped = collapse_spaces true s in
    let kept = String.◌∷◌ c (collapse_spaces false s) in
    if is_space (code c) then skipped else if gap then append " " kept else kept

-- the quotes that `strings.Trim` takes away
abbrev pub is_quote : ℕ → Bool
is_quote c = c == 34 || c == 39 || c == 8220 || c == 8221

unfoldable pub trim_quotes_left : String → String
trim_quotes_left String.[] = ""
trim_quotes_left (String.◌∷◌ c s) =
    let rest = trim_quotes_left s in if is_quote (code c) then rest else String.◌∷◌ c s

unfoldable pub trim_quotes_right : String → String
trim_quotes_right String.[] = ""
trim_quotes_right (String.◌∷◌ c s) =
    let rest = trim_quotes_right s in
    if is_quote (code c) && is_empty rest then "" else String.◌∷◌ c rest

-- What `generateTitle` makes of the text of an answer.
unfoldable pub clean_title : String → String
unfolding collapse_spaces trim_quotes_left trim_quotes_right clamp_runes
clean_title raw =
    clamp_runes (trim_quotes_right (trim_quotes_left (collapse_spaces false (trim_space raw)))) 60

abbrev pub is_title : String → Bool
is_title raw = elim (new_title raw) [ ok t ↦ true | err e ↦ false ]

-- `generateTitle`, from what the model answered
unfoldable pub generate_title : ChatReply → String → String
unfolding clean_title truncate_runes
generate_title (chat_error e) user_text = truncate_runes user_text 60
generate_title chat_cancelled user_text = truncate_runes user_text 60
generate_title (chat_answer resp streamed) user_text =
    let raw = clean_title resp.text in
    if is_empty raw || not (is_title raw) then truncate_runes user_text 60 else raw

abbrev pub title_messages : String → String → List Json
title_messages user_text agent_text =
    message "system" (
      text
        "Title this chat in at most 6 words. No quotes, no punctuation fluff, no tools. Reply with the title only.")
    ∷ message "user" (
        text (
          append "User: " (
            append (clamp_runes user_text 400)
              (append "\nAssistant: " (append (clamp_runes agent_text 200) "\nTitle:")))))
    ∷ []

abbrev pub title_or : Result String → String → Result String
title_or (ok t) raw = ok t
title_or (err e) raw = new_title (truncate_runes raw 60)

abbrev pub item_text : Option TranscriptItem → Option String
item_text none = none
item_text (some it) = some (as_text (it.payload "text"))

abbrev pub turn_text : String → Result ThreadSnapshot → Option String
turn_text turn (ok s) = item_text (find_user_message s.items turn)
turn_text turn (err e) = none

-- The loop of `findFirstAgentText`.
unfoldable pub first_agent_text : List TranscriptItem → String
first_agent_text [] = ""
first_agent_text (it ∷ items) =
    let rest = first_agent_text items in
    if str_eq it.item_type ItemType.agent_message
      && not (is_empty (trim_space (as_text (it.payload "text"))))
    then as_text (it.payload "text")
    else rest

abbrev pub agent_text_of : Result ThreadSnapshot → String
agent_text_of (ok s) = first_agent_text s.items
agent_text_of (err e) = ""

module _ (os : Os) where
  abbrev pub retitled : ConversationMeta → String → M (Unit {0})
  retitled prev raw =
      if str_eq prev.title_source title_manual
      then pure tt
      else if str_eq prev.status conversation_deleted
      then pure tt
      else (do
        title ← lift (title_or (new_title raw) raw)
        at ← now os
        Store.append_conversation_meta os (record prev {
          title = some title;
          title_source = title_auto;
          updated_at = at;
          last_activity_at = at;
        }))

  abbrev pub titled : Option ConversationMeta → String → M (Unit {0})
  titled none raw = fail (plain "conversation not found")
  titled (some prev) raw = retitled prev raw

  -- `applyAutoTitle`
  unfoldable pub apply_auto_title : String → String → M (Unit {0})
  apply_auto_title tid raw = do found ← Store.resolve_conversation os tid; titled found raw

  -- `findTurnUserText`: `none` when there is no such item, or the thread cannot be read
  unfoldable pub find_turn_user_text : TurnJob → M (Option String)
  find_turn_user_text job = do
    snap ← attempt (Store.get_thread os job.thread_id 0)
    pure (turn_text job.turn_id snap)

  -- `findFirstAgentText`
  unfoldable pub find_first_agent_text : String → M String
  unfolding first_agent_text
  find_first_agent_text tid = do
    snap ← attempt (Store.get_thread os tid 0)
    pure (agent_text_of snap)

-- Whether a conversation is still without a title of its own.
abbrev pub wants_title : Option ConversationMeta → Bool
wants_title none = false
wants_title (some prev) = str_eq prev.title_source title_pending || is_empty prev.title_source

abbrev pub found_or_none : Result (Option ConversationMeta) → Option ConversationMeta
found_or_none (ok found) = found
found_or_none (err e) = none

abbrev pub or_empty : Option String → String
or_empty none = ""
or_empty (some s) = s

module _ (os : Os) (deps : Deps) where
  -- `runAutoTitleJob`, which runs beside the turns that follow
  unfoldable pub run_auto_title_job : Chat → TurnJob → String → String → M (Unit {0})
  unfolding generate_title
  run_auto_title_job chat job user_text agent_text = do
    reply ← ask chat (title_messages user_text agent_text) false (trim_space job.provider_id)
    apply_auto_title os job.thread_id (generate_title reply user_text)

  abbrev pub title_now : Bool → TurnJob → String → String → M (Option (String × String))
  title_now true job user_text agent_text =
      dropping (apply_auto_title os job.thread_id (truncate_runes user_text 60)) (pure none)
  title_now false job user_text agent_text = pure (some (user_text, agent_text))

  abbrev pub no_chat : Option Chat → Bool
  no_chat none = true
  no_chat (some chat) = false

  -- `maybeAutoTitle`: the texts of the job that it starts, if it starts one
  unfoldable pub maybe_auto_title : TurnJob → M (Option (String × String))
  maybe_auto_title job = do
    found ← attempt (Store.resolve_conversation os job.thread_id)
    if not (wants_title (found_or_none found)) then pure none else do
      stored ←
          if is_empty (trim_space job.message)
          then find_turn_user_text os job
          else pure (some (trim_space job.message))
      let user_text = or_empty stored
      if is_empty (trim_space user_text) then pure none else do
        agent_text ← find_first_agent_text os job.thread_id
        title_now (deps.config.llm_stub || no_chat deps.chat) job user_text agent_text
