-- ===== src/Webchat/Turns/Retrying.antt =====
-- methods.go: which turns are retried, and by whom.
use buat_postingan.Base.{ℕ, suc, ◌+◌, String, List, ◌≡◌, some, true, false, arith}
use buat_postingan.Exec.{ok}
use buat_postingan.Domain.{TranscriptItem}
use buat_postingan.Jsonl.Disk.{Os, World}
use buat_postingan.Jsonl.Lock.{unix}
use buat_postingan.Jsonl.Store.{items_of, after, get_thread, resolve_conversation}
use buat_postingan.Webchat.Ports.{Ports}
use buat_postingan.Webchat.Checks.{require_docs_ready, resolve_turn_overrides}
use buat_postingan.Webchat.Retryable.{find_user_message, is_retryable_failed, as_int64, is_other}
use buat_postingan.Webchat.Turns.{
  RetryTurnInput, StartTurnResult, retry_job, retry_checked, retry_turn,
}
use buat_postingan.Webchat.Turns.Holding.{Taken}
use buat_postingan.Webchat.Turns.Outcome.{retry_turn-Taken}

-- The items of the thread, as `GetThread` reads them.
abbrev pub read_items : Os → String → World → List TranscriptItem
read_items os tid w = after 0 (items_of (os.clock (suc (suc w.tick))) (w.lines tid))

-- The turn failed retryably, and the admin sent its message.
pub record MayRetry (items : List TranscriptItem) (turn : String) (admin : ℕ) (msg : TranscriptItem)
    : Type 0 where
  pub found : find_user_message items turn ≡ some msg
  pub retryable : is_retryable_failed items turn ≡ true
  pub initiator : is_other (as_int64 (msg.payload "admin_user_id")) admin ≡ false

module _ (os : Os) (ports : Ports) (w : World) (input : RetryTurnInput) where
  retry_checked-MayRetry :
      (c : TranscriptItem × ℕ × (String × String × String))
      → (retry_checked os ports input w).0 ≡ ok c
      → MayRetry (read_items os input.thread_id w) input.turn_id input.admin_user_id c.0
  unfolding retry_checked require_docs_ready resolve_turn_overrides get_thread resolve_conversation
  retry_checked-MayRetry c done = record {
    found = ground arith;
    retryable = ground arith;
    initiator = ground arith;
  }

  -- A `RetryTurn` that answers was asked for a turn whose items, as `GetThread` reads them, hold its
  -- user message and end in a retryable failure, by the admin that the message names, if it names
  -- one. It put exactly one job in the queue, for that turn and with the text of that message, and
  -- left the lock of the thread held by the token of the job.
  pub retry_turn-queued :
      (answer : StartTurnResult)
      → (retry_turn os ports input w).0 ≡ ok answer
      → (msg : TranscriptItem) × (overrides : String × String × String) × (token : String) × (n : ℕ)
        × MayRetry (read_items os input.thread_id w) input.turn_id input.admin_user_id msg
        × Taken input.thread_id token
            (unix (os.clock n) + ports.lock_ttl_sec)
            (retry_job input msg overrides token)
            w
            (retry_turn os ports input w).1
  retry_turn-queued answer done =
      let (c, token, n, passed, took) = retry_turn-Taken os ports w input answer done in
      (c.0, c.2, token, n, retry_checked-MayRetry c passed, took)
