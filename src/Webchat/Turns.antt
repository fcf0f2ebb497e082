-- ===== src/Webchat/Turns.antt =====
-- methods.go: starting, retrying and interrupting a turn.
pub mod Locking
pub mod Interrupting
pub mod Retrying
pub mod Outcome
pub mod Holding
pub mod Checking
use buat_postingan.Base.{
  ℕ, String, Bool, true, false, Option, none, some, List, [], ◌∷◌, ◌==◌, ◌&&◌, is_empty, trim_space,
  if◌then◌else◌,
}
use buat_postingan.Apperr.{new, empty, validation, not_found, not_retryable, not_initiator}
use buat_postingan.Exec.{Result, ok, err, pure, fail, lift, modify, on_error, ◌>>=◌, ◌>>◌}
use buat_postingan.Json.{as_text}
use buat_postingan.Domain.{TranscriptItem, TurnJob}
use buat_postingan.Domain.Ids.{new_turn_id}
use buat_postingan.Jsonl.Disk.{Os, M, fresh}
use buat_postingan.Jsonl.Store
use buat_postingan.Jsonl.Lock
use buat_postingan.Jsonl.Floor
use buat_postingan.Jsonl.Interrupt
use buat_postingan.Webchat.Ports.{Ports}
use buat_postingan.Webchat.Retryable.{find_user_message, is_retryable_failed, as_int64, is_other}
use buat_postingan.Webchat.Checks.{
  none_left, unique_non_empty, redacted, require_docs_ready, resolve_turn_overrides,
  assert_attachments,
}

-- `StartTurnInput`
pub record StartTurnInput : Type 0 where
  pub thread_id : String
  pub message : String
  pub admin_user_id : ℕ
  pub admin_name : String
  pub attachment_ids : List String
  pub model : String
  pub effort : String
  pub workspace : String
  pub ui_path : String

-- `RetryTurnInput`
pub record RetryTurnInput : Type 0 where
  pub thread_id : String
  pub turn_id : String
  pub admin_user_id : ℕ
  pub model : String
  pub effort : String
  pub workspace : String
  pub ui_path : String

-- `StartTurnResult`
pub record StartTurnResult : Type 0 where
  pub thread_id : String
  pub turn_id : String
  pub seq_head : ℕ
  pub status : String
  pub floor_holder_admin_id : Option ℕ
  pub floor_remaining_sec : ℕ

-- The job that `StartTurn` makes.
abbrev pub start_job :
    StartTurnInput → String → List String → String × String × String → String → String → TurnJob
start_job input safe att_ids overrides lock_token turn_id = record {
  thread_id = input.thread_id;
  turn_id = turn_id;
  admin_user_id = input.admin_user_id;
  admin_name = input.admin_name;
  message = safe;
  attachment_ids = att_ids;
  is_retry = false;
  lock_token = lock_token;
  provider_id = overrides.0;
  model = overrides.1;
  effort = overrides.2;
  workspace = input.workspace;
  ui_path = input.ui_path;
}

-- The job that `RetryTurn` makes.
abbrev pub retry_job : RetryTurnInput → TranscriptItem → String × String × String → String → TurnJob
retry_job input user_msg overrides lock_token = record {
  thread_id = input.thread_id;
  turn_id = input.turn_id;
  admin_user_id = input.admin_user_id;
  admin_name = as_text (user_msg.payload "admin_display_name");
  message = as_text (user_msg.payload "text");
  attachment_ids = [];
  is_retry = true;
  lock_token = lock_token;
  provider_id = overrides.0;
  model = overrides.1;
  effort = overrides.2;
  workspace = input.workspace;
  ui_path = input.ui_path;
}

abbrev pub queued : String → String → ℕ → ℕ → StartTurnResult
queued tid turn_id admin seq_head = record {
  thread_id = tid;
  turn_id = turn_id;
  seq_head = seq_head;
  status = "queued";
  floor_holder_admin_id = some admin;
  floor_remaining_sec = 0;
}

abbrev pub retried : Option TranscriptItem → Result TranscriptItem
retried none = err (new 404 not_found "turn user_message not found")
retried (some it) = ok it

abbrev pub active_turn : String → Option String → String
active_turn turn none = turn
active_turn turn (some active) = if is_empty turn then active else turn

abbrev pub may_interrupt : Option ℕ → ℕ → Bool
may_interrupt none admin = true
may_interrupt (some initiator) admin = initiator == admin

module _ (os : Os) (ports : Ports) where
  -- `Worker.Enqueue`
  unfoldable pub enqueue : TurnJob → M (Unit {0})
  enqueue job = do lift (ports.enqueue job); modify (λ w. record w { queue = job ∷ w.queue })

  -- The body of `StartTurn` from the lock on; each of its errors releases the lock.
  unfoldable pub start_body :
      StartTurnInput → String → List String → String × String × String → String → M StartTurnResult
  start_body input safe att_ids overrides lock_token = do
    raw ← fresh os
    turn_id ← lift (new_turn_id raw)
    Floor.acquire os input.thread_id input.admin_user_id turn_id
    seq_head ← Store.seq_head os input.thread_id
    enqueue (start_job input safe att_ids overrides lock_token turn_id)
    pure (queued input.thread_id turn_id input.admin_user_id seq_head)

  -- What `StartTurn` does while it holds the lock, by the token.
  unfoldable pub start_locked :
      StartTurnInput → String → List String → String × String × String → String → M StartTurnResult
  start_locked input safe att_ids overrides lock_token =
      on_error (start_body input safe att_ids overrides lock_token)
        (Lock.release os input.thread_id lock_token)

  -- What `StartTurn` checks before it takes the lock: the text, the attachments and the overrides.
  unfoldable pub start_checked :
      StartTurnInput → M (String × List String × (String × String × String))
  start_checked input = do
    let msg = trim_space input.message
    let att_ids = unique_non_empty input.attachment_ids
    let text = if is_empty msg then "(attached files)" else msg
    lift (if is_empty msg && none_left att_ids then err (new 422 empty "message empty") else ok tt)
    overrides ← resolve_turn_overrides ports input.model input.effort
    require_docs_ready ports
    Store.get_thread os input.thread_id 0
    assert_attachments ports input.thread_id att_ids
    Floor.assert os ports.floor_ttl_sec input.thread_id input.admin_user_id
    safe ← lift (redacted ports.redact text)
    pure (safe, att_ids, overrides)

  -- `StartTurn`
  unfoldable pub start_turn : StartTurnInput → M StartTurnResult
  start_turn input = do
    checked ← start_checked input
    lock_token ← Lock.try_acquire os ports.lock_ttl_sec input.thread_id
    start_locked input checked.0 checked.1 checked.2 lock_token

  -- The body of `RetryTurn` from the lock on; each of its errors releases the lock.
  unfoldable pub retry_body :
      RetryTurnInput → TranscriptItem → ℕ → String × String × String → String → M StartTurnResult
  retry_body input user_msg seq_head overrides lock_token = do
    Floor.acquire os input.thread_id input.admin_user_id input.turn_id
    enqueue (retry_job input user_msg overrides lock_token)
    pure (queued input.thread_id input.turn_id input.admin_user_id seq_head)

  -- What `RetryTurn` does while it holds the lock, by the token.
  unfoldable pub retry_locked :
      RetryTurnInput → TranscriptItem → ℕ → String × String × String → String → M StartTurnResult
  retry_locked input user_msg seq_head overrides lock_token =
      on_error (retry_body input user_msg seq_head overrides lock_token)
        (Lock.release os input.thread_id lock_token)

  -- What `RetryTurn` checks before it takes the lock.
  unfoldable pub retry_checked :
      RetryTurnInput → M (TranscriptItem × ℕ × (String × String × String))
  retry_checked input = do
    require_docs_ready ports
    overrides ← resolve_turn_overrides ports input.model input.effort
    snap ← Store.get_thread os input.thread_id 0
    user_msg ← lift (retried (find_user_message snap.items input.turn_id))
    lift (
        if is_retryable_failed snap.items input.turn_id
        then ok tt
        else err (new 409 not_retryable "turn not retryable"))
    lift (
        if is_other (as_int64 (user_msg.payload "admin_user_id")) input.admin_user_id
        then err (new 403 not_initiator "only initiator can retry")
        else ok tt)
    Floor.assert os ports.floor_ttl_sec input.thread_id input.admin_user_id
    pure (user_msg, snap.seq_head, overrides)

  -- `RetryTurn`
  unfoldable pub retry_turn : RetryTurnInput → M StartTurnResult
  retry_turn input = do
    checked ← retry_checked input
    lock_token ← Lock.try_acquire os ports.lock_ttl_sec input.thread_id
    retry_locked input checked.0 checked.1 checked.2 lock_token

  -- `InterruptTurn`
  unfoldable pub interrupt_turn : String → String → ℕ → M (Unit {0})
  interrupt_turn tid turn admin = do
    snap ← Store.get_thread os tid 0
    let active = active_turn turn snap.active_turn_id
    if is_empty active
        then fail (new 422 validation "turn_id required")
        else if may_interrupt snap.active_turn_initiator_admin_id admin
        then Interrupt.request os tid active
        else fail (new 403 not_initiator "only initiator can interrupt")
