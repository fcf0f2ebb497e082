-- ===== src/Domain/ItemType.antt =====
-- `ItemType` of internal/domain/enum/webchat.go: the types of durable items.
use buat_postingan.Base.{String}

abbrev pub thread_started : String
thread_started = "thread.started"

abbrev pub user_message : String
user_message = "user_message"

abbrev pub turn_started : String
turn_started = "turn.started"

abbrev pub turn_resumed : String
turn_resumed = "turn.resumed"

abbrev pub turn_completed : String
turn_completed = "turn.completed"

abbrev pub turn_failed : String
turn_failed = "turn.failed"

abbrev pub reasoning : String
reasoning = "reasoning"

abbrev pub tool_call : String
tool_call = "tool_call"

abbrev pub tool_result : String
tool_result = "tool_result"

abbrev pub agent_message : String
agent_message = "agent_message"

abbrev pub context_compacted : String
context_compacted = "context_compacted"
