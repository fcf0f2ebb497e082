-- ===== src/Tests/Turns.antt =====
-- Turns that are started, retried and stopped.
use buat_postingan.Base.{ℕ, ◌+◌, String, ◌≡◌, refl, true, List, [], ◌∷◌, trim_space}
use buat_postingan.Domain.{TranscriptItem}
use buat_postingan.Domain.Ids.{new_turn_id, new_thread_id, new_item_id}
use buat_postingan.Exec.{ok, err}
use buat_postingan.Apperr.{new, empty, not_initiator}
use buat_postingan.Json.{field_of}
use buat_postingan.Float.{float_int}
use buat_postingan.Config.Effort.{normalize_effort_override, one_of}
use buat_postingan.Jsonl.Rows.{row_to_meta, meta_to_row}
use buat_postingan.Jsonl.LineMap.{line_map_to_item, item_to_line_map, is_core_line_key, as_uint64}
use buat_postingan.Jsonl.Store.{
  last_row, resolve_conversation, append_conversation_meta, get_thread, items_of, seq_head,
  stamped_meta,
}
use buat_postingan.Jsonl.Store.Conversations.{conversation}
use buat_postingan.Jsonl.Lock.{unix, try_acquire, read_lock_record}
use buat_postingan.Jsonl.Lock.Holding.{CanRelease}
use buat_postingan.Jsonl.Floor.{assert, acquire, remaining_sec}
use buat_postingan.Jsonl.Interrupt.{has_flag, request}
use buat_postingan.Webchat.Checks.{
  unique_non_empty, require_docs_ready, resolve_turn_overrides, assert_attachments,
}
use buat_postingan.Webchat.Retryable.{find_user_message, is_retryable_failed}
use buat_postingan.Webchat.Turns.{
  start_turn, start_checked, start_locked, start_body, start_job, enqueue, queued, retry_turn,
  retry_checked, retry_locked, retry_body, retry_job, interrupt_turn, StartTurnInput,
  RetryTurnInput,
}
use buat_postingan.Webchat.Turns.Holding.{Unchanged, Taken}
use buat_postingan.Webchat.Turns.Outcome.{start_turn-queued, start_turn-failed, retry_turn-failed}
use buat_postingan.Webchat.Turns.Retrying.{MayRetry, read_items, retry_turn-queued}
use buat_postingan.Webchat.Turns.Interrupting.{MayStop, interrupt_turn-requested}
use buat_postingan.Webchat.Checks.UniqueIds.{
  Distinct, one_of-unique_non_empty, unique_non_empty-Distinct,
}
use buat_postingan.Tests.Fixtures.{calm, world, ports, start_input, retry_input}

pub calm-CanRelease : CanRelease calm
calm-CanRelease = record { readable = λ n. refl; removable = λ n. refl }

pub started : (start_turn calm ports start_input world).0 ≡ ok (queued "thr_a" "token" 7 2)
unfolding start_turn start_checked start_locked start_body enqueue require_docs_ready
    resolve_turn_overrides normalize_effort_override assert_attachments unique_non_empty assert
    acquire resolve_conversation append_conversation_meta get_thread items_of seq_head last_row
    row_to_meta meta_to_row line_map_to_item item_to_line_map is_core_line_key as_uint64 float_int
    new_turn_id new_thread_id new_item_id trim_space try_acquire read_lock_record remaining_sec
    stamped_meta
started = refl

start_turn-queued_example :
    (c : String × List String × (String × String × String)) × (token : String) × (n : ℕ)
    × ((start_checked calm ports start_input world).0 ≡ ok c)
    × Taken "thr_a" token
        (unix (calm.clock n) + 300)
        (start_job start_input c.0 c.1 c.2 token "token")
        world
        (start_turn calm ports start_input world).1
start_turn-queued_example =
    start_turn-queued calm ports world start_input (queued "thr_a" "token" 7 2) started

abbrev silent : StartTurnInput
silent = record start_input { message = "  " }

refused : (start_turn calm ports silent world).0 ≡ err (new 422 empty "message empty")
unfolding start_turn start_checked unique_non_empty trim_space
refused = refl

start_turn-failed_example : Unchanged "thr_a" world (start_turn calm ports silent world).1
start_turn-failed_example =
    start_turn-failed calm ports world silent (new 422 empty "message empty") calm-CanRelease
      refused

resumed : (retry_turn calm ports retry_input world).0 ≡ ok (queued "thr_a" "trn_1" 7 2)
unfolding retry_turn retry_checked retry_locked retry_body enqueue require_docs_ready
    resolve_turn_overrides normalize_effort_override assert acquire resolve_conversation
    append_conversation_meta get_thread items_of seq_head last_row row_to_meta meta_to_row
    line_map_to_item item_to_line_map is_core_line_key as_uint64 float_int new_turn_id new_thread_id
    new_item_id trim_space try_acquire read_lock_record remaining_sec stamped_meta find_user_message
    is_retryable_failed field_of
resumed = refl

retry_turn-queued_example :
    (msg : TranscriptItem) × (overrides : String × String × String) × (token : String) × (n : ℕ)
    × MayRetry (read_items calm "thr_a" world) "trn_1" 7 msg
    × Taken "thr_a" token
        (unix (calm.clock n) + 300)
        (retry_job retry_input msg overrides token)
        world
        (retry_turn calm ports retry_input world).1
retry_turn-queued_example =
    retry_turn-queued calm ports world retry_input (queued "thr_a" "trn_1" 7 2) resumed

abbrev stranger : RetryTurnInput
stranger = record retry_input { admin_user_id = 8 }

forbidden :
    (retry_turn calm ports stranger world).0
    ≡ err (new 403 not_initiator "only initiator can retry")
unfolding retry_turn retry_checked require_docs_ready resolve_turn_overrides
    normalize_effort_override resolve_conversation get_thread items_of seq_head last_row row_to_meta
    meta_to_row line_map_to_item item_to_line_map is_core_line_key as_uint64 float_int new_turn_id
    new_thread_id new_item_id trim_space find_user_message is_retryable_failed field_of
forbidden = refl

retry_turn-failed_example : Unchanged "thr_a" world (retry_turn calm ports stranger world).1
retry_turn-failed_example =
    retry_turn-failed calm ports world stranger (new 403 not_initiator "only initiator can retry")
      calm-CanRelease forbidden

stopped : (interrupt_turn calm ports "thr_a" "trn_1" 7 world).0 ≡ ok tt
unfolding interrupt_turn resolve_conversation get_thread items_of seq_head last_row row_to_meta
    request new_thread_id trim_space
stopped = refl

interrupt_turn-requested_example :
    (active : String) × MayStop (conversation world "thr_a") "trn_1" 7 active
    × (has_flag ((interrupt_turn calm ports "thr_a" "trn_1" 7 world).1.flags "thr_a") active ≡ true)
interrupt_turn-requested_example =
    interrupt_turn-requested calm ports world "thr_a" "trn_1" 7 stopped

abbrev ids : List String
ids = " a" ∷ "b" ∷ "" ∷ "a " ∷ []

one_of-unique_non_empty_example : one_of (unique_non_empty ids) "a" ≡ true
unfolding one_of trim_space
one_of-unique_non_empty_example = one_of-unique_non_empty ids "a"

unique_non_empty-Distinct_example : Distinct (unique_non_empty ids)
unique_non_empty-Distinct_example = unique_non_empty-Distinct ids
