-- ===== src/Tests/Worker.antt =====
-- A turn that the worker runs.
use buat_postingan.Json.{text}
use buat_postingan.Base.{
  ◌+◌, ◌==◌, if◌then◌else◌, ◌≡◌, refl, true, false, none, some, [], ◌∷◌, trim_space,
}
use buat_postingan.Exec.{ok, ◌>>=◌}
use buat_postingan.Domain.{TranscriptItem, TurnJob}
use buat_postingan.Domain.Ids.{new_item_id}
use buat_postingan.Jsonl.Disk.{World, LockFile, LockRecord}
use buat_postingan.Jsonl.Interrupt
use buat_postingan.Jsonl.Store
use buat_postingan.Webchat.Turns.{start_turn, queued}
use buat_postingan.Worker.{Deps, Tools, LlmResult, chat_answer, chat_cancelled, tool_error}
use buat_postingan.Worker.Agent.{
  Chat, Loop, agent_loop, agent_round, text_round, noted, empty_answer, empty_nudge, finish,
}
use buat_postingan.Worker.Items.{append, append_id}
use buat_postingan.Worker.Messages.{empty_usage, message}
use buat_postingan.Worker.Run.{process, run}
use buat_postingan.Worker.Ending.{files_of, process-unlocked, process-other}
use buat_postingan.Worker.Served.{start_turn-process}
use buat_postingan.Worker.Closing.Stop.{AreWritten, GoesOn, cancelled-completed}
use buat_postingan.Worker.Closing.Turn.{Reported, process-Closed}
use buat_postingan.Tests.Fixtures.{calm, world, ports, start_input}
use buat_postingan.Tests.Turns.{calm-CanRelease, started}

abbrev pub never : Chat
never n messages with_tools pinned = chat_cancelled

abbrev pub no_tools : Tools
no_tools = record { schemas = ok []; execute = λ tid workspace call w. (tool_error "none", w) }

-- A model that is always stopped, and no tools.
abbrev pub deps : Deps
deps = record {
  config = record {
    llm_stub = false;
    max_tool_rounds = 8;
    compaction_enabled = true;
    max_input_tokens = 1;
    reserve_tokens = 1;
    recent_turns = 1;
    summary_max_chars = 100;
    workspace_root = "/tmp";
  };
  chat = some never;
  tools = some no_tools;
  recover_calls = λ resp streamed. resp;
  inject_prompts = λ messages workspace. ok messages;
  compact_prompt = "Summarize.";
  marshal = λ v. "{}";
  attachment = none;
  skip_pixels = false;
  resolve_path = none;
  trace_id = "trace";
}

abbrev pub job : TurnJob
job = record {
  thread_id = "thr_a";
  turn_id = "trn_2";
  admin_user_id = 7;
  admin_name = "Owner";
  message = "hello";
  attachment_ids = [];
  is_retry = false;
  lock_token = "token";
  provider_id = "";
  model = "";
  effort = "";
  workspace = "";
  ui_path = "";
}

abbrev record_of_job : LockRecord
record_of_job = record { token = "token"; expires_at = 500 }

-- The thread is locked by the token of the job.
abbrev locked : World
locked = record world { locks = λ tid. LockFile.held record_of_job }

process-unlocked_example : (process calm deps job locked).1.locks "thr_a" ≡ LockFile.absent
process-unlocked_example =
    process-unlocked calm deps job record_of_job locked calm-CanRelease
      (record { same = λ tid workspace call w. refl }) refl refl

process-other_example :
    (files_of "thr_b" (process calm deps job locked).1 ≡ files_of "thr_b" locked)
    × ((process calm deps job locked).1.queue ≡ [])
process-other_example =
    process-other calm deps job "thr_b" locked refl (record { same = λ tid workspace call w. refl })
      (record { same = λ tid workspace call w. refl })

process-Closed_example :
    Reported calm deps job
      (run calm deps job locked).0
      (run calm deps job locked).1
      (process calm deps job locked).1
process-Closed_example = process-Closed calm deps job locked

start_turn-process_example :
    (j : TurnJob) × ((start_turn calm ports start_input world).1.queue ≡ j ∷ [])
    × (j.turn_id ≡ "token")
    × ((process calm deps j (start_turn calm ports start_input world).1).1.locks "thr_a"
        ≡ LockFile.absent)
start_turn-process_example =
    start_turn-process calm ports deps world start_input (queued "thr_a" "token" 7 2)
      calm-CanRelease (record { same = λ tid workspace call w. refl }) started

abbrev begun : Loop
begun = record {
  messages = [];
  pinned = "";
  last_usage = empty_usage;
  last_model = none;
  last_tool_only = false;
  prev_fingerprint = "";
  identical = 0;
  nudged = false;
}

-- An answer without text.
abbrev silence : LlmResult
silence = record {
  text = "";
  tool_calls = [];
  reasoning = "";
  model = record { provider = ""; id = ""; api = "" };
  usage = record {
    input_tokens = 0;
    output_tokens = 0;
    cached_input_tokens = 0;
    cache_write_tokens = 0;
    reasoning_output_tokens = 0;
  };
  provider_id = "A";
}

-- A model that gives no text at first, and whose next call is stopped.
abbrev once : Chat
once n messages with_tools pinned = if n == 1 then chat_answer silence "" else chat_cancelled

abbrev nudged_on : Loop
nudged_on = record (noted silence begun) {
  messages = empty_answer silence ∷ message "system" (text empty_nudge) ∷ [];
  nudged = true;
}

asked_again :
    GoesOn calm deps job once no_tools "/tmp" begun world nudged_on (record world { tick = 2 })
unfolding agent_round text_round Interrupt.is_requested Interrupt.has_flag trim_space
asked_again = record {
  requested = ok false;
  polled = world;
  poll = refl;
  quiet = refl;
  round = refl;
}

stopped :
    ((agent_loop calm deps job once no_tools "/tmp" (1 + 7) 0 begun >>= finish calm deps job 8)
      world).0
    ≡ ok tt
unfolding agent_loop agent_round text_round append append_id Store.append_item Store.next_seq
    Store.append_numbered Interrupt.is_requested Interrupt.clear Interrupt.has_flag new_item_id
    trim_space
stopped = refl

cancelled-completed_example :
    (failed : TranscriptItem) × (completed : TranscriptItem) × AreWritten "thr_a" failed completed
      (record world { tick = 2 })
      ((agent_loop calm deps job once no_tools "/tmp" (1 + 7) 0 begun >>= finish calm deps job 8)
        world).1
    × (failed.item_type ≡ "turn.failed")
    × (completed.item_type ≡ "turn.completed")
unfolding Interrupt.has_flag
cancelled-completed_example =
    cancelled-completed calm deps job once no_tools "/tmp" 1 6 8 0 begun world nudged_on
      (record world { tick = 2 }) tt
      (nudged_on, record world { tick = 2 }, asked_again, (refl, refl)) refl refl refl stopped
