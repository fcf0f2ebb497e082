-- ===== src/Worker/Frame.antt =====
-- Views of the state that the items of a turn and its rows of the index leave alone.
pub mod Rounds
pub mod Turn
use buat_postingan.Base.{
  ℕ, zero, suc, String, Bool, ◌≡◌, refl, ◌∙◌, Option, none, some, List, [], ◌∷◌, is_empty,
  trim_space, true, false, arith,
}
use buat_postingan.Exec.{
  Result, ok, err, Exec, lift, pure, Keeps, Keeps-bind, Keeps-lift, Keeps-pure, Keeps-fail,
  Keeps-attempt, Keeps-if, Keeps-dropping, ◌>>◌, ◌>>=◌,
}
use buat_postingan.Json.{Json, Fields}
use buat_postingan.Domain.{TranscriptItem, TurnJob, ConversationMeta}
use buat_postingan.Domain.Ids.{new_item_id}
use buat_postingan.Jsonl.Disk.{Os, World, M, SameFiles, Reads, fresh, now}
use buat_postingan.Jsonl.Store
use buat_postingan.Jsonl.Interrupt
use buat_postingan.Jsonl.Store.Reading.{resolve_conversation-SameFiles, get_thread-SameFiles}
use buat_postingan.Worker.{
  payload_of, Deps, Tools, ToolCall, LlmResult, ChatReply, chat_answer, chat_error, chat_cancelled,
}
use buat_postingan.Worker.Items.{append_id, append, chosen_id}
use buat_postingan.Worker.Agent.{
  Chat, ask, execute, Loop, with_ids, run_tools, tool_round, text_round, answered_round,
  agent_round, agent_loop, finish, cut_off,
}

-- The view `f` does not change with the rows of the index and the calls that only read.
pub record IsQuiet {X : Type 0} (os : Os) (f : World → X) : Type 0 where
  pub same : (v w : World) → SameFiles v w → f w ≡ f v
  pub index : (meta : ConversationMeta) → Keeps f (Store.append_conversation_meta os meta)

-- Nor does it with the items of the thread and its stop requests.
pub record IsFramed {X : Type 0} (os : Os) (tid : String) (f : World → X) : Type 0 where
  pub quiet : IsQuiet os f
  pub item : (item : TranscriptItem) → Keeps f (Store.append_item os tid item)
  pub flag : (turn : String) → Keeps f (Interrupt.clear os tid turn)

-- The tools leave the view as it is.
pub record Spares {X : Type 0} (f : World → X) (tools : Tools) : Type 0 where
  pub same :
      (tid workspace : String) (call : ToolCall) (w : World)
      → f (tools.execute tid workspace call w).1 ≡ f w

-- So do those of the worker, if it has any.
abbrev pub SparedBy : {X : Type 0} → (World → X) → Option Tools → Type 0
SparedBy f none = Unit
SparedBy f (some tools) = Spares f tools

ticked : (w : World) (n : ℕ) → SameFiles w (record w { tick = n })
ticked w n = record {
  index = refl;
  lines = refl;
  seqs = refl;
  locks = refl;
  flags = refl;
  queue = refl;
}

is_requested-SameFiles :
    (os : Os) (tid turn : String) (w : World) → SameFiles w (Interrupt.is_requested os tid turn w).1
unfolding Interrupt.is_requested
is_requested-SameFiles os tid turn w = ground arith

module _ {X : Type 0} (os : Os) (tid : String) (f : World → X) (h : IsQuiet os f) where
  pub Keeps-Reads : {A : Type 0} (m : M A) → Reads m → Keeps f m
  Keeps-Reads m r = record { kept = λ w. h.same w (m w).1 (r.at w) }

  pub fresh-Keeps : Keeps f (fresh os)
  fresh-Keeps = record { kept = λ w. h.same w _ (ticked w (suc w.tick)) }

  pub now-Keeps : Keeps f (now os)
  now-Keeps = record { kept = λ w. h.same w _ (ticked w (suc w.tick)) }

  pub ask-Keeps :
      (chat : Chat) (messages : List Json) (with_tools : Bool) (pinned : String)
      → Keeps f (ask chat messages with_tools pinned)
  ask-Keeps chat messages with_tools pinned = record {
    kept = λ w. h.same w _ (ticked w (suc w.tick));
  }

  pub execute-Keeps :
      (tools : Tools) (workspace : String) (call : ToolCall)
      → Spares f tools
      → Keeps f (execute tools tid workspace call)
  execute-Keeps tools workspace call safe = record {
    kept = λ w.
        h.same _ _ (ticked (tools.execute tid workspace call w).1 (suc w.tick))
        ∙ safe.same tid workspace call w;
  }

  pub is_requested-Keeps : (turn : String) → Keeps f (Interrupt.is_requested os tid turn)
  is_requested-Keeps turn = record { kept = λ w. h.same w _ (is_requested-SameFiles os tid turn w) }

  pub get_thread-Keeps : (n : ℕ) → Keeps f (Store.get_thread os tid n)
  get_thread-Keeps n = record { kept = λ w. h.same w _ (get_thread-SameFiles os tid w n) }

  pub resolve-Keeps : Keeps f (Store.resolve_conversation os tid)
  resolve-Keeps = record { kept = λ w. h.same w _ (resolve_conversation-SameFiles os tid w) }

module _ {X : Type 0} (os : Os) (f : World → X) (job : TurnJob)
    (h : IsFramed os job.thread_id f) where
  chosen_id-Keeps : (item_id : String) → Keeps f (chosen_id os item_id)
  chosen_id-Keeps item_id =
      Keeps-if f (is_empty (trim_space item_id)) _ _
        (Keeps-bind f _ _ (fresh-Keeps os job.thread_id f h.quiet)
          (λ raw. Keeps-lift f (new_item_id raw)))
        (Keeps-lift f (new_item_id item_id))

  pub append_id-Keeps :
      (typ item_id : String) (fields : Fields) → Keeps f (append_id os job typ item_id fields)
  unfolding append_id
  append_id-Keeps typ item_id fields = Keeps-bind f _ _ (chosen_id-Keeps item_id) λ id.
      Keeps-bind f _ _ (now-Keeps os job.thread_id f h.quiet) λ at. h.item (record {
        seq = 0;
        id = id;
        thread_id = job.thread_id;
        turn_id = job.turn_id;
        item_type = typ;
        payload = payload_of fields;
        at = at;
      })

  pub append-Keeps : (typ : String) (fields : Fields) → Keeps f (append os job typ fields)
  unfolding append
  append-Keeps typ fields = append_id-Keeps typ "" fields

  -- an item, and an answer after it
  pub append_then-Keeps :
      {A : Type 0} (typ : String) (fields : Fields) (a : A)
      → Keeps f (append os job typ fields >> pure a)
  append_then-Keeps typ fields a = Keeps-bind f _ _ (append-Keeps typ fields) (λ _. Keeps-pure f a)
