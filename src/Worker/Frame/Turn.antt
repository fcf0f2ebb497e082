-- ===== src/Worker/Frame/Turn.antt =====
-- worker.go and title.go: a turn, seen from a view that it leaves alone.
use buat_postingan.Base.{
  String, Bool, true, false, Option, none, some, ◌||◌, not, str_eq, is_empty, trim_space,
}
use buat_postingan.Apperr.{plain, error_text}
use buat_postingan.Exec.{
  Result, ok, err, Keeps, Keeps-bind, Keeps-lift, Keeps-pure, Keeps-fail, Keeps-attempt, Keeps-if,
  Keeps-dropping,
}
use buat_postingan.Json.{field, end, text, num}
use buat_postingan.Domain.{
  ConversationMeta, TurnJob, title_manual, title_auto, conversation_deleted, conversation_active,
}
use buat_postingan.Domain.Ids.{new_title}
use buat_postingan.Domain.ItemType
use buat_postingan.Jsonl.Disk.{Os, World}
use buat_postingan.Jsonl.Store
use buat_postingan.Worker.{Deps}
use buat_postingan.Worker.Items.{failure}
use buat_postingan.Worker.Content.{attachment_refs}
use buat_postingan.Worker.Messages.{empty_usage}
use buat_postingan.Worker.Texts.{truncate_runes, cut_runes, display_name}
use buat_postingan.Base.Int.{pos}
use buat_postingan.Worker.Title.{
  retitled, titled, title_or, apply_auto_title, find_turn_user_text, find_first_agent_text,
  turn_text, agent_text_of, wants_title, found_or_none, or_empty, maybe_auto_title, title_now,
  no_chat,
}
use buat_postingan.Worker.Run.{
  mark_active_turn, meta_or_new, holder_or, turn_completed, run_stub, stub_text, open_turn, work,
  run_open, run_retry, run, ended, attachments_field,
}
use buat_postingan.Worker.Frame.{
  IsQuiet, IsFramed, SparedBy, now-Keeps, get_thread-Keeps, resolve-Keeps, append-Keeps,
  append_then-Keeps,
}
use buat_postingan.Worker.Frame.Rounds.{run_agent-Keeps}

module _ {X : Type 0} (os : Os) (tid : String) (f : World → X) (h : IsQuiet os f) where
  retitled-Keeps : (prev : ConversationMeta) (raw : String) → Keeps f (retitled os prev raw)
  retitled-Keeps prev raw =
      Keeps-if f (str_eq prev.title_source title_manual) _ _ (Keeps-pure f tt) (
        Keeps-if f (str_eq prev.status conversation_deleted) _ _ (Keeps-pure f tt) (
          Keeps-bind f _ _ (Keeps-lift f (title_or (new_title raw) raw)) λ title.
            Keeps-bind f _ _ (now-Keeps os tid f h) λ at. h.index (record prev {
              title = some title;
              title_source = title_auto;
              updated_at = at;
              last_activity_at = at;
            })))

  titled-Keeps : (found : Option ConversationMeta) (raw : String) → Keeps f (titled os found raw)
  titled-Keeps none raw = Keeps-fail f (plain "conversation not found")
  titled-Keeps (some prev) raw = retitled-Keeps prev raw

  apply_auto_title-Keeps : (raw : String) → Keeps f (apply_auto_title os tid raw)
  unfolding apply_auto_title
  apply_auto_title-Keeps raw =
      Keeps-bind f _ _ (resolve-Keeps os tid f h) λ found. titled-Keeps found raw

  find_first_agent_text-Keeps : Keeps f (find_first_agent_text os tid)
  unfolding find_first_agent_text
  find_first_agent_text-Keeps =
      Keeps-bind f _ _ (Keeps-attempt f _ (get_thread-Keeps os tid f h 0))
        λ snap. Keeps-pure f (agent_text_of snap)

module _ {X : Type 0} (os : Os) (deps : Deps) (f : World → X) (job : TurnJob)
    (h : IsQuiet os f) where
  find_turn_user_text-Keeps : Keeps f (find_turn_user_text os job)
  unfolding find_turn_user_text
  find_turn_user_text-Keeps =
      Keeps-bind f _ _ (Keeps-attempt f _ (get_thread-Keeps os job.thread_id f h 0))
        λ snap. Keeps-pure f (turn_text job.turn_id snap)

  title_now-Keeps :
      (b : Bool) (user_text agent_text : String)
      → Keeps f (title_now os deps b job user_text agent_text)
  title_now-Keeps true user_text agent_text =
      Keeps-dropping f _ _
        (apply_auto_title-Keeps os job.thread_id f h (truncate_runes user_text 60))
        (Keeps-pure f none)
  title_now-Keeps false user_text agent_text = Keeps-pure f (some (user_text, agent_text))

  pub maybe_auto_title-Keeps : Keeps f (maybe_auto_title os deps job)
  unfolding maybe_auto_title
  maybe_auto_title-Keeps =
      Keeps-bind f _ _ (Keeps-attempt f _ (resolve-Keeps os job.thread_id f h)) λ found.
        Keeps-if f (not (wants_title (found_or_none found))) _ _ (Keeps-pure f none) (
          Keeps-bind f _ _
            (Keeps-if f (is_empty (trim_space job.message)) _ _ find_turn_user_text-Keeps
              (Keeps-pure f (some (trim_space job.message))))
            λ stored. Keeps-if f (is_empty (trim_space (or_empty stored))) _ _ (Keeps-pure f none) (
              Keeps-bind f _ _ (find_first_agent_text-Keeps os job.thread_id f h) λ agent_text.
                title_now-Keeps (deps.config.llm_stub || no_chat os deps deps.chat)
                  (or_empty stored) agent_text))

  pub mark_active_turn-Keeps : Keeps f (mark_active_turn os job)
  unfolding mark_active_turn
  mark_active_turn-Keeps = Keeps-bind f _ _ (resolve-Keeps os job.thread_id f h) λ found.
      Keeps-bind f _ _ (now-Keeps os job.thread_id f h) λ at.
        let meta = meta_or_new found job in
        h.index (record meta {
          status = conversation_active;
          updated_at = at;
          last_activity_at = at;
          active_turn_id = some job.turn_id;
          active_turn_initiator_admin_id = some job.admin_user_id;
          floor_holder_admin_id = holder_or meta.floor_holder_admin_id job.admin_user_id;
        })

  pub turn_completed-Keeps : Keeps f (turn_completed os job)
  unfolding turn_completed
  turn_completed-Keeps = record { kept = (get_thread-Keeps os job.thread_id f h 0).kept }

  cleared-Keeps : (found : Option ConversationMeta) → Keeps f (Store.cleared os found)
  cleared-Keeps none = Keeps-pure f tt
  cleared-Keeps (some prev) = Keeps-bind f _ _ (now-Keeps os job.thread_id f h) λ at.
      h.index (record prev {
        updated_at = at;
        last_activity_at = at;
        active_turn_id = none;
        active_turn_initiator_admin_id = none;
      })

  pub clear_active_turn-Keeps : Keeps f (Store.clear_active_turn os job.thread_id)
  unfolding Store.clear_active_turn
  clear_active_turn-Keeps =
      Keeps-bind f _ _ (resolve-Keeps os job.thread_id f h) λ found. cleared-Keeps found

module _ {X : Type 0} (os : Os) (deps : Deps) (f : World → X) (job : TurnJob)
    (h : IsFramed os job.thread_id f) (safe : SparedBy f deps.tools) where
  run_stub-Keeps : Keeps f (run_stub os deps job)
  unfolding run_stub
  run_stub-Keeps =
      Keeps-bind f _ _
        (append-Keeps os f job h ItemType.agent_message
          (field "text" (text (stub_text os deps job job.attachment_ids)) end))
        λ _. append_then-Keeps os f job h ItemType.turn_completed (field "usage" empty_usage end) tt

  open_turn-Keeps : Keeps f (open_turn os deps job)
  open_turn-Keeps =
      Keeps-bind f _ _
        (append-Keeps os f job h ItemType.user_message (
          field "text" (text job.message) (
            field "admin_user_id" (num (pos job.admin_user_id)) (
              field "admin_display_name" (text (display_name job.admin_name))
                (attachments_field (attachment_refs deps.resolve_path job.attachment_ids))))))
        λ _. append_then-Keeps os f job h ItemType.turn_started end tt

  work-Keeps : Keeps f (work os deps job)
  work-Keeps =
      Keeps-if f deps.config.llm_stub _ _ run_stub-Keeps (run_agent-Keeps os deps job f h safe)

  run_open-Keeps : Keeps f (run_open os deps job)
  run_open-Keeps = Keeps-bind f _ _ (mark_active_turn-Keeps os deps f job h.quiet) λ _.
      Keeps-bind f _ _ work-Keeps λ _.
        Keeps-bind f _ _ (turn_completed-Keeps os deps f job h.quiet) λ completed.
          Keeps-if f completed _ _ (maybe_auto_title-Keeps os deps f job h.quiet)
            (Keeps-pure f none)

  pub ended-Keeps : (r : Result (Option (String × String))) → Keeps f (ended os deps job r)
  ended-Keeps (ok started) = Keeps-pure f started
  ended-Keeps (err e) =
      Keeps-dropping f _ _
        (append-Keeps os f job h ItemType.turn_failed
          (failure deps "job_error" (cut_runes 1000 (error_text e))))
        (Keeps-pure f none)

module _ {X : Type 0} (os : Os) (deps : Deps) (f : World → X) (job : TurnJob)
    (h : IsFramed os job.thread_id f) (safe : SparedBy f deps.tools) where
  run_retry-Keeps : (found : Option String) → Keeps f (run_retry os deps job found)
  run_retry-Keeps none =
      append_then-Keeps os f job h ItemType.turn_failed
        (failure deps "not_found" "turn missing user_message") none
  run_retry-Keeps (some message) =
      Keeps-bind f _ _ (append-Keeps os f job h ItemType.turn_resumed end)
        λ _. run_open-Keeps os deps f (record job { message = message }) h safe

  pub run-Keeps : Keeps f (run os deps job)
  unfolding run
  run-Keeps =
      Keeps-if f job.is_retry _ _
        (Keeps-bind f _ _ (find_turn_user_text-Keeps os deps f job h.quiet)
          λ found. run_retry-Keeps found)
        (Keeps-bind f _ _ (open_turn-Keeps os deps f job h safe)
          λ _. run_open-Keeps os deps f job h safe)
