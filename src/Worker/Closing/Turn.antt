-- ===== src/Worker/Closing/Turn.antt =====
-- worker.go: the item that closes the thread when the work of a turn is done.
use buat_postingan.Base.{
  ℕ, zero, suc, String, ◌≡◌, refl, ap, ◌∙◌, Option, none, some, List, ◌⊎◌, inl, inr, arith, leb,
  ◌==◌, ◌&&◌, if◌then◌else◌,
}
use buat_postingan.Exec.{
  Result, ok, err, attempt, pure, Gives, Gives-bind, Gives-after, Gives-dropping, Gives-if,
  Gives-fail, Gives-pure, ◌>>=◌, ◌>>◌, Keeps, lift, Keeps-bind, Keeps-if, Keeps-pure,
}
use buat_postingan.Json.{Payload, field, end, text}
use buat_postingan.Domain.{TurnJob, TranscriptItem}
use buat_postingan.Domain.ItemType
use buat_postingan.Jsonl.Disk.{Os, World, M}
use buat_postingan.Jsonl.Store
use buat_postingan.Jsonl.Interrupt
use buat_postingan.Worker.{Deps, Tools}
use buat_postingan.Worker.Items.{append, stopped_by_user, failure, runtime_message}
use buat_postingan.Worker.Messages.{build_messages, empty_usage}
use buat_postingan.Worker.Texts.{workspace_for_prompt, cut_runes}
use buat_postingan.Worker.Agent.{
  Chat, Loop, agent_round, agent_loop, finish, poll_said, maybe_compact, configured, run_agent,
  max_rounds, model_field,
}
use buat_postingan.Worker.Run.{
  run_stub, stub_text, work, run_open, run_retry, run, ended, process, mark_active_turn,
  turn_completed, open_turn,
}
use buat_postingan.Worker.Frame.{IsQuiet}
use buat_postingan.Jsonl.Lock.{release}
use buat_postingan.Worker.Ending.{before_release, process-release}
use buat_postingan.Worker.Frame.Turn.{
  clear_active_turn-Keeps, turn_completed-Keeps, maybe_auto_title-Keeps,
}
use buat_postingan.Worker.Title.{maybe_auto_title, find_turn_user_text}
use buat_postingan.Apperr.{Error, error_text}
use buat_postingan.Worker.Closing.{
  Closed-lines, append-ClosedBy, ClosedBy, Closed, append_then-Gives,
}

abbrev lines_of : World → String → List Payload
lines_of w = w.lines

module _ (os : Os) (deps : Deps) (job : TurnJob) where
  -- When the loop returns, the turn is closed.
  abbrev Returned : Option (ℕ × Loop) → World → Type 0
  Returned none w = ClosedBy job ItemType.turn_failed w
  Returned (some last) w = Unit

  agent_loop-Returned :
      (chat : Chat) (tools : Tools) (workspace : String) (left rounds : ℕ) (st : Loop)
      → Gives Returned (agent_loop os deps job chat tools workspace left rounds st)
  unfolding agent_loop
  agent_loop-Returned chat tools workspace zero rounds st =
      Gives-pure Returned (some (rounds, st)) (λ w. tt)
  agent_loop-Returned chat tools workspace (suc left) rounds st =
      Gives-bind Returned (attempt (Interrupt.is_requested os job.thread_id job.turn_id)) _
        λ requested.
          Gives-if Returned (poll_said requested) _ _
            (Gives-dropping Returned (Interrupt.clear os job.thread_id job.turn_id) _ (
              append_then-Gives Returned os job ItemType.turn_failed (stopped_by_user deps) none
                (λ w closed. closed)))
            (Gives-bind Returned (agent_round os deps job chat tools workspace (left == 0) st) _
              λ r.
                Gives-if Returned r.0 _ _ (Gives-pure Returned (some (suc rounds, r.1)) (λ w. tt))
                  (agent_loop-Returned chat tools workspace left (suc rounds) r.1))

  abbrev Done : Unit {0} → World → Type 0
  Done u w = Closed job w

  finish-Closed :
      (limit : ℕ) (last : Option (ℕ × Loop)) (w : World) (u : Unit {0})
      → Returned last w
      → (finish os deps job limit last w).0 ≡ ok u
      → Closed job (finish os deps job limit last w).1
  finish-Closed limit none w u closed done = inr closed
  finish-Closed limit (some (rounds, st)) w u closed done =
      (Gives-bind Done
          (if leb limit rounds && st.last_tool_only
            then (do
              append os job ItemType.agent_message
                  (runtime_message "Stopped: max tool rounds reached. Please refine the question.")
              pure tt)
            else pure tt)
          _
          λ _.
            append_then-Gives Done os job ItemType.turn_completed
              (field "usage" st.last_usage (model_field os deps job st.last_model)) tt
              (λ v closed. inl closed)).given
        w u done

  configured-Closed :
      (chat : Option Chat) (tools : Option Tools) → Gives Done (configured os deps job chat tools)
  configured-Closed (some chat) (some tools) = Gives-bind Done (lift tools.schemas) _ λ _.
      Gives-bind Done (Store.get_thread os job.thread_id 0) _ λ snap.
        Gives-bind Done (maybe_compact os deps job chat snap.items) _ λ items.
          Gives-bind Done
            (lift (
              deps.inject_prompts (build_messages deps items)
                (workspace_for_prompt job.workspace deps.config.workspace_root)))
            _
            λ messages.
              Gives-after Done Returned _ (finish os deps job (max_rounds os deps job))
                (agent_loop-Returned chat tools _ (max_rounds os deps job) 0 _)
                (finish-Closed (max_rounds os deps job))
  configured-Closed (some chat) none = Gives-fail Done _
  configured-Closed none tools = Gives-fail Done _

  work-Closed : Gives Done (work os deps job)
  unfolding run_agent run_stub
  work-Closed =
      Gives-if Done deps.config.llm_stub _ _
        (Gives-bind Done
          (append os job ItemType.agent_message
            (field "text" (text (stub_text os deps job job.attachment_ids)) end))
          _
          λ _.
            append_then-Gives Done os job ItemType.turn_completed (field "usage" empty_usage end) tt
              (λ w closed. inl closed))
        (configured-Closed deps.chat deps.tools)

  lines_of-IsQuiet : IsQuiet os lines_of
  unfolding Store.append_conversation_meta
  lines_of-IsQuiet = record {
    same = λ v w h. h.lines;
    index = λ meta. record { kept = λ w. ground arith };
  }

  -- the answer of a turn: a title job, if any
  abbrev Titled : Option (String × String) → World → Type 0
  Titled started w = Closed job w

  -- what follows the work
  abbrev titling : M (Option (String × String))
  titling = do
    completed ← turn_completed os job
    if completed then maybe_auto_title os deps job else pure none

  titled-Keeps : Keeps lines_of titling
  titled-Keeps =
      Keeps-bind lines_of _ _ (turn_completed-Keeps os deps lines_of job lines_of-IsQuiet)
        λ completed.
          Keeps-if lines_of completed _ _
            (maybe_auto_title-Keeps os deps lines_of job lines_of-IsQuiet)
            (Keeps-pure lines_of none)

  run_open-Closed : Gives Titled (run_open os deps job)
  run_open-Closed = Gives-bind Titled (mark_active_turn os job) _ λ _.
      Gives-after Titled Done (work os deps job) _ work-Closed
        (λ u v started closed done. Closed-lines job v (titling v).1 (titled-Keeps.kept v) closed)

module _ (os : Os) (deps : Deps) (job : TurnJob) where
  run_retry-Closed :
      (found : Option String) → Gives (Titled os deps job) (run_retry os deps job found)
  run_retry-Closed none =
      append_then-Gives (Titled os deps job) os job ItemType.turn_failed
        (failure deps "not_found" "turn missing user_message") none (λ w closed. inr closed)
  run_retry-Closed (some message) =
      Gives-bind (Titled os deps job) (append os job ItemType.turn_resumed end) _
        λ _. run_open-Closed os deps (record job { message = message })

  run-Closed : Gives (Titled os deps job) (run os deps job)
  unfolding run
  run-Closed =
      Gives-if (Titled os deps job) job.is_retry _ _
        (Gives-bind (Titled os deps job) (find_turn_user_text os job) _
          λ found. run_retry-Closed found)
        (Gives-bind (Titled os deps job) (open_turn os deps job) _ λ _. run_open-Closed os deps job)

  -- the item that `process` writes for an error
  abbrev pub report : Error → M TranscriptItem
  report e =
      append os job ItemType.turn_failed (failure deps "job_error" (cut_runes 1000 (error_text e)))

  -- The turn is closed, or it failed and so did the report of that.
  abbrev pub Reported : Result (Option (String × String)) → World → World → Type 0
  Reported r v last =
      Closed job last ⊎ ((e : Error) × (e' : Error) × (r ≡ err e) × ((report e v).0 ≡ err e'))

  report-Closed :
      (e : Error) (v : World) (r : Result TranscriptItem)
      → (report e v).0 ≡ r
      → Reported (err e) v (report e v).1
  report-Closed e v (ok it) wrote = inl (
      inr (
        append-ClosedBy os job ItemType.turn_failed it
          (failure deps "job_error" (cut_runes 1000 (error_text e))) v wrote))
  report-Closed e v (err e') failed = inr (e, e', refl, failed)

  ended-Reported :
      (r : Result (Option (String × String))) (v : World)
      → ((started : Option (String × String)) → r ≡ ok started → Closed job v)
      → Reported r v (ended os deps job r v).1
  ended-Reported (ok started) v closed = inl (closed started refl)
  ended-Reported (err e) v closed = report-Closed e v (report e v).0 refl

  release-lines : (w : World) → (release os job.thread_id job.lock_token w).1.lines ≡ w.lines
  unfolding release
  release-lines w = ground arith

  process-lines :
      (w : World)
      → (process os deps job w).1.lines
        ≡ (ended os deps job (run os deps job w).0 (run os deps job w).1).1.lines
  process-lines w =
      ap (λ v. v.lines) (process-release os deps job w)
      ∙ release-lines (before_release os deps job w)
      ∙ (clear_active_turn-Keeps os deps lines_of job (lines_of-IsQuiet os deps job)).kept
          (ended os deps job (run os deps job w).0 (run os deps job w).1).1

  Reported-lines :
      (r : Result (Option (String × String))) (u v v' : World)
      → v'.lines ≡ v.lines
      → Reported r u v
      → Reported r u v'
  Reported-lines r u v v' same (inl closed) = inl (Closed-lines job v v' same closed)
  Reported-lines r u v v' same (inr failed) = inr failed

  -- A job that is processed leaves as the last line of its thread an item of its turn that says
  -- that the turn completed or that it failed, unless its run ends in an error and the report of
  -- that error cannot be appended either.
  pub process-Closed :
      (w : World) → Reported (run os deps job w).0 (run os deps job w).1 (process os deps job w).1
  process-Closed w =
      Reported-lines (run os deps job w).0 (run os deps job w).1
        (ended os deps job (run os deps job w).0 (run os deps job w).1).1 (process os deps job w).1
        (process-lines w)
        (ended-Reported (run os deps job w).0 (run os deps job w).1 (run-Closed.given w))
