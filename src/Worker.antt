-- ===== src/Worker.antt =====
-- internal/infrastructure/worker: the turn worker. Here its data and its collaborators.
pub mod Texts
pub mod Content
pub mod Messages
pub mod Compact
pub mod Items
pub mod Agent
pub mod Title
pub mod Run
pub mod Frame
pub mod Ending
pub mod Closing
pub mod Served
use buat_postingan.Base.{ℕ, String, Bool, Option, none, some, List}
use buat_postingan.Apperr.{Error}
use buat_postingan.Exec.{Result}
use buat_postingan.Json.{Json, Fields, Payload, field_of}
use buat_postingan.Jsonl.Disk.{World}

-- `service.ToolCall`
pub record ToolCall : Type 0 where
  pub call_id : String
  pub name : String
  pub arguments : Json

-- `service.ModelRef`
pub record ModelRef : Type 0 where
  pub provider : String
  pub id : String
  pub api : String

-- `service.TokenUsage`
pub record TokenUsage : Type 0 where
  pub input_tokens : ℕ
  pub output_tokens : ℕ
  pub cached_input_tokens : ℕ
  pub cache_write_tokens : ℕ
  pub reasoning_output_tokens : ℕ

-- `service.LLMResult`, without the status, which only log lines carry
pub record LlmResult : Type 0 where
  pub text : String
  pub tool_calls : List ToolCall
  pub reasoning : String
  pub model : ModelRef
  pub usage : TokenUsage
  pub provider_id : String

-- `service.ToolEnvelope`; `success` is `OK`, and `content` is `Data`
pub record ToolEnvelope : Type 0 where
  pub success : Bool
  pub tool : String
  pub content : Json
  pub error : Option Json
  pub meta : Option Json

-- What `Chat` answers, with the text that was streamed; `chat_cancelled` when the poll of the
-- interrupt flag cancelled the round.
pub data ChatReply : Type 0 where
  chat_answer : LlmResult → String → ChatReply
  chat_error : Error → ChatReply
  chat_cancelled : ChatReply

-- What `Execute` answers, by the text of the error; `tool_cancelled` as above.
pub data ToolReply : Type 0 where
  tool_envelope : ToolEnvelope → ToolReply
  tool_error : String → ToolReply
  tool_cancelled : ToolReply

-- An attachment as `AttachmentStore.Get` finds it: its bytes by their number and in base64.
pub record Attachment : Type 0 where
  pub kind : String
  pub mime : String
  pub size : ℕ
  pub base64 : String

-- The `ToolRegistry`. A tool may run any command: it answers, and changes the files as it likes.
pub record Tools : Type 0 where
  pub schemas : Result (List Json)
  pub execute : String → String → ToolCall → World → ToolReply × World

-- The fields of `Config` that the worker reads; what is 0 or below there is 0 here.
pub record WorkerConfig : Type 0 where
  pub llm_stub : Bool
  pub max_tool_rounds : ℕ
  pub compaction_enabled : Bool
  pub max_input_tokens : ℕ
  pub reserve_tokens : ℕ
  pub recent_turns : ℕ
  pub summary_max_chars : ℕ
  pub workspace_root : String

-- `entity.AttachmentMeta`, what the worker reads of it
pub record AttachmentMeta : Type 0 where
  pub id : String
  pub filename : String
  pub mime : String
  pub size : ℕ
  pub kind : String

-- `Deps`: what is not modelled of the worker's collaborators. `chat` is `LLMRouter.Chat` by the
-- number of the call, the messages and the pinned provider, with the tools or without;
-- `recover_calls` is `RecoverXMLToolCalls`; `inject_prompts` reads the prompt files; `marshal` is
-- `json.Marshal`; `resolve_path` is `AttachmentStore.ResolvePath`, if there is a store.
pub record Deps : Type 0 where
  pub config : WorkerConfig
  pub chat : Option (ℕ → List Json → Bool → String → ChatReply)
  pub tools : Option Tools
  pub recover_calls : LlmResult → String → LlmResult
  pub inject_prompts : List Json → String → Result (List Json)
  pub compact_prompt : String
  pub marshal : Json → String
  pub attachment : Option (String → Option Attachment)
  pub skip_pixels : Bool
  pub resolve_path : Option (String → Option AttachmentMeta)
  pub trace_id : String

-- A map made of its entries.
abbrev pub payload_of : Fields → Payload
payload_of fs k = field_of k fs
