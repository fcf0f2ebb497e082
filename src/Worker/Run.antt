-- ===== src/Worker/Run.antt =====
-- worker.go: a turn from its first item to the release of its lock.
use buat_postingan.Base.{
  ℕ, String, Bool, true, false, Option, none, some, List, [], ◌∷◌, not, str_eq, if◌then◌else◌,
}
use Prim.Native.String.{◌++◌ as append_text}
use buat_postingan.Base.Int.{pos}
use buat_postingan.Apperr.{error_text}
use buat_postingan.Exec.{Result, ok, err, pure, attempt, dropping, ◌>>=◌, ◌>>◌}
use buat_postingan.Json.{Json, num, text, arr, Fields, end, field}
use buat_postingan.Domain.{
  TranscriptItem, ConversationMeta, TurnJob, title_pending, conversation_active,
}
use buat_postingan.Domain.ItemType
use buat_postingan.Jsonl.Disk.{Os, M, now}
use buat_postingan.Jsonl.Store
use buat_postingan.Jsonl.Lock
use buat_postingan.Worker.{Deps}
use buat_postingan.Worker.Content.{elements_of, attachment_refs}
use buat_postingan.Worker.Texts.{join, cut_runes, display_name}
use buat_postingan.Worker.Messages.{empty_usage}
use buat_postingan.Worker.Items.{append, failure}
use buat_postingan.Worker.Agent.{run_agent}
use buat_postingan.Worker.Title.{find_turn_user_text, maybe_auto_title}

abbrev pub holder_or : Option ℕ → ℕ → Option ℕ
holder_or none admin = some admin
holder_or (some holder) admin = some holder

abbrev pub meta_or_new : Option ConversationMeta → TurnJob → ConversationMeta
meta_or_new (some prev) job = prev
meta_or_new none job = record {
  thread_id = job.thread_id;
  title = none;
  title_source = title_pending;
  status = conversation_active;
  created_by_admin_user_id = job.admin_user_id;
  updated_at = 0;
  last_activity_at = 0;
  floor_holder_admin_id = none;
  floor_last_turn_at = none;
  active_turn_id = none;
  active_turn_initiator_admin_id = none;
}

-- The loop of `turnCompleted`, from the first item on, with what the later ones say over it.
unfoldable pub last_end : String → List TranscriptItem → Option Bool
last_end turn [] = none
last_end turn (it ∷ items) = elim (last_end turn items) [
  | some b ↦ some b
  | none ↦
      if not (str_eq it.turn_id turn)
      then none
      else if str_eq it.item_type ItemType.turn_completed
      then some true
      else if str_eq it.item_type ItemType.turn_failed
      then some false
      else none
]

abbrev pub is_some_true : Option Bool → Bool
is_some_true (some b) = b
is_some_true none = false

abbrev pub attachments_field : List Json → Fields
attachments_field [] = end
attachments_field (r ∷ rs) = field "attachments" (arr (elements_of (r ∷ rs))) end

module _ (os : Os) where
  -- `markActiveTurn`
  unfoldable pub mark_active_turn : TurnJob → M (Unit {0})
  mark_active_turn job = do
    found ← Store.resolve_conversation os job.thread_id
    at ← now os
    let meta = meta_or_new found job
    Store.append_conversation_meta os (record meta {
      status = conversation_active;
      updated_at = at;
      last_activity_at = at;
      active_turn_id = some job.turn_id;
      active_turn_initiator_admin_id = some job.admin_user_id;
      floor_holder_admin_id = holder_or meta.floor_holder_admin_id job.admin_user_id;
    })

  -- `turnCompleted`
  unfoldable pub turn_completed : TurnJob → M Bool
  unfolding last_end
  turn_completed job = do
    snap ← attempt (Store.get_thread os job.thread_id 0)
    pure (elim snap [ ok s ↦ is_some_true (last_end job.turn_id s.items) | err e ↦ false ])

module _ (os : Os) (deps : Deps) where
  abbrev pub stub_text : TurnJob → List String → String
  stub_text job [] = append_text "(stub) received: " job.message
  stub_text job (id ∷ ids) =
      append_text "(stub) received: "
        (append_text job.message (append_text " · attachments=" (join "," (id ∷ ids))))

  -- `runStub`
  unfoldable pub run_stub : TurnJob → M (Unit {0})
  run_stub job = do
    append os job ItemType.agent_message
        (field "text" (text (stub_text job job.attachment_ids)) end)
    append os job ItemType.turn_completed (field "usage" empty_usage end)
    pure tt

  -- The first items of a turn that is not a retry.
  abbrev pub open_turn : TurnJob → M (Unit {0})
  open_turn job = do
    append os job ItemType.user_message (
        field "text" (text job.message) (
          field "admin_user_id" (num (pos job.admin_user_id)) (
            field "admin_display_name" (text (display_name job.admin_name))
              (attachments_field (attachment_refs deps.resolve_path job.attachment_ids)))))
    append os job ItemType.turn_started end
    pure tt

  abbrev pub work : TurnJob → M (Unit {0})
  work job = if deps.config.llm_stub then run_stub job else run_agent os deps job

  -- From the mark on: the turn itself, and its title.
  abbrev pub run_open : TurnJob → M (Option (String × String))
  run_open job = do
    mark_active_turn os job
    work job
    completed ← turn_completed os job
    if completed then maybe_auto_title os deps job else pure none

  abbrev pub run_retry : TurnJob → Option String → M (Option (String × String))
  run_retry job none = do
    append os job ItemType.turn_failed (failure deps "not_found" "turn missing user_message")
    pure none
  run_retry job (some message) = do
    append os job ItemType.turn_resumed end
    run_open (record job { message = message })

  -- `run`: the title job that it starts, if it starts one
  unfoldable pub run : TurnJob → M (Option (String × String))
  unfolding run_stub
  run job =
      if job.is_retry
      then (do found ← find_turn_user_text os job; run_retry job found)
      else (do open_turn job; run_open job)

  abbrev pub ended : TurnJob → Result (Option (String × String)) → M (Option (String × String))
  ended job (ok started) = pure started
  ended job (err e) =
      dropping
        (append os job ItemType.turn_failed
          (failure deps "job_error" (cut_runes 1000 (error_text e))))
        (pure none)

  -- `process`, of a job that does not panic
  unfoldable pub process : TurnJob → M (Option (String × String))
  unfolding run
  process job = do
    r ← attempt (run job)
    started ← ended job r
    dropping (Store.clear_active_turn os job.thread_id)
        (dropping (Lock.release os job.thread_id job.lock_token) (pure started))
