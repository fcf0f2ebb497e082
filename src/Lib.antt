-- ===== src/Lib.antt =====
-- BuatPostingan: the conversations of a web chat, kept in files, and the turns that run in them.
--
-- A thread is an append-only file of JSON lines with a counter file, a lock file and flag files
-- beside it, and a row of the shared session index. A turn is started or retried by a use case,
-- which checks the request, takes the lock and the speak floor of the thread, and hands a job to
-- the worker; the worker appends items to the thread and releases the lock.
--
-- Base, Float, Exec, Apperr, Json   shared names, float64, results and state passing, errors
--                            (internal/pkg/apperr), the values of `map[string]any`
-- Domain                     internal/domain: entities, value objects, enum words
-- Jsonl.Rows, Jsonl.LineMap  internal/infrastructure/repository/jsonl/meta.go and line.go: a
--                            conversation's row and an item's line, and back
-- Jsonl.Disk                 the files as a state, and the calls of the operating system
-- Jsonl.Store                jsonl/store.go: `append_item` is `AppendItem`, `next_seq` is
--                            `nextSeq`, and so on
-- Jsonl.Lock, Floor, Interrupt   jsonl/lock.go, floor.go, interrupt.go
-- Config                     internal/config: the words of the configuration
-- Webchat                    internal/usecase/webchat/methods.go: `start_turn` is `StartTurn`,
--                            `retry_turn` is `RetryTurn`, `interrupt_turn` is `InterruptTurn`
-- Network.Limiter            internal/infrastructure/network/ratelimit.go: the login limiter, its
--                            maps as association lists
-- Llm.Router                 internal/infrastructure/service/llm/router.go: `candidates_for` is
--                            `candidatesFor`, `chat` is `Chat` over any client
-- Settings                   internal/usecase/settings/config_patch.go and
--                            internal/config/settings_merge.go: the limits, context, docs and LLM
--                            sections; floats are a type with the tests that the code makes
-- Mcp.Policy                 internal/infrastructure/service/mcp/policy.go: `check_call_allowed` is
--                            `CheckCallAllowed`
-- Worker                     internal/infrastructure/worker: `Run.process` is `process`, `Run.run`
--                            is `run`, `Agent.run_agent` is `runAgent`, and its loop and the
--                            function of a round are `agent_loop` and `agent_round`
-- Worker.Compact, Messages, Content, Title   worker/compact.go, the messages for the model, with
--                            their images (vision.go), and title.go
-- Worker.Frame, Ending, Closing   what a turn leaves alone, the lock and the last item after it
-- Sse                        internal/infrastructure/sse: `Streamer.emit_new` is `emitNew`, `Hub`
--                            is `Hub`, its channels as a flag and a list
-- Auth                       internal/infrastructure/auth/store.go: the tables of users and
--                            sessions as lists, a SQL statement as a step that may fail
-- Settings.Service           internal/usecase/settings/service.go: `create_user` is `CreateUser`,
--                            and so on, each a change of the document that is loaded and saved
-- Llm.Effort                 internal/infrastructure/service/llm/effort_policy.go
-- Tests                      concrete worlds and runs
--
-- The state `World` is what the files say: rows and objects that decode, a counter, a lock record,
-- the turns that are flagged, and the jobs that the worker was given. Each call of the operating
-- system has a number (`tick`); `Os.fails` says which calls fail, in any pattern, `Os.clock` what
-- the clock shows and `Os.random` what a new id gets. A call that changes a file either does so
-- whole or fails and leaves it, but for truncating and writing, which are two calls. An operation
-- under a file lock is one step: what another process does while it runs is not modelled.
--
-- A time is a number of nanoseconds since 1970, and 0 is the zero time. In the files it is a float64
-- of seconds, and so is any number that `encoding/json` reads: `Float` has the rounding of float64,
-- on numbers that are not negative and in units of 2^-1074. The expiry of a lock is in seconds, as
-- the code has it. A sequence number is a uint64 and wraps at 2^64. Admin ids are natural numbers,
-- which the code only compares. A file stands under its thread id, and a flag file under its name in
-- the thread's directory, as `filepath.Join` has it for ids without path separators.
-- `strings.ToLower`, the redaction, the models, the attachments, the docs gate and the worker's queue
-- are parameters (`Webchat.Ports`). Loops are recursion on the list that the code ranges over, so
-- none needs fuel; the rounding halves a number at most 2200 times, where 2098 are enough for a
-- finite float64.
--
-- The worker's collaborators are parameters too (`Worker.Deps`): the router's answers by the number
-- of the call, the tools, which may change any file, the prompt files, `json.Marshal` and the attachment store. A stop request
-- that the poll of a round finds is an answer of that model or tool call (`chat_cancelled`,
-- `tool_cancelled`). The agent loop is recursion on the rounds that are left, at most
-- `MaxToolRounds` (8 when it is below 1), as the code's `for` is. A title job runs beside the
-- turns that follow, so `process` answers its texts and `run_auto_title_job` is a step of its own.
--
-- Not modelled: a panic inside a turn, the prompt templates, the LLM client, the tools, the docs
-- search, the storage of attachments, the waiting of `Subscribe`, the sorted list of
-- conversations, the import of a provider's models, the settings of MCP servers, the masked views
-- of the settings, HTTP, logging and the front end.
mod Base
pub mod Apperr
pub mod Exec
pub mod Float
pub mod Json
pub mod Domain
pub mod Jsonl
pub mod Config
pub mod Network
pub mod Llm
pub mod Mcp
pub mod Worker
pub mod Sse
pub mod Auth
pub mod Webchat
pub mod Settings
mod Tests
