-- ===== src/Webchat/Turns/Outcome.antt =====
-- methods.go: `StartTurn` and `RetryTurn`, when they answer and when they fail.
use buat_postingan.Base.{ℕ, ◌+◌, String, List, ◌≡◌}
use buat_postingan.Apperr.{Error}
use buat_postingan.Exec.{ok, err}
use buat_postingan.Domain.{TranscriptItem}
use buat_postingan.Jsonl.Disk.{Os, World}
use buat_postingan.Jsonl.Lock.{unix}
use buat_postingan.Jsonl.Lock.Holding.{CanRelease}
use buat_postingan.Webchat.Ports.{Ports}
use buat_postingan.Webchat.Turns.{
  StartTurnInput, RetryTurnInput, StartTurnResult, start_job, retry_job, start_body, start_locked,
  start_checked, start_turn, retry_body, retry_locked, retry_checked, retry_turn,
}
use buat_postingan.Webchat.Turns.Locking.{
  start_body-locks, start_body-failed, start_body-queued, retry_body-locks, retry_body-failed,
  retry_body-queued,
}
use buat_postingan.Webchat.Turns.Checking.{start_checked-Reads, retry_checked-Reads}
use buat_postingan.Webchat.Turns.Holding.{Unchanged, Taken, guarded-failed, guarded-ok}

module _ (os : Os) (ports : Ports) (w : World) where
  -- When the lock file can be read and removed, a `StartTurn` that fails leaves the queue of the
  -- worker as it was, and no lock of the thread that was not there before.
  pub start_turn-failed :
      (input : StartTurnInput) (e : Error)
      → CanRelease os
      → (start_turn os ports input w).0 ≡ err e
      → Unchanged input.thread_id w (start_turn os ports input w).1
  unfolding start_turn start_locked
  start_turn-failed input e can failed =
      guarded-failed os ports.lock_ttl_sec input.thread_id (start_checked os ports input)
        (λ c token. start_body os ports input c.0 c.1 c.2 token) w e can
        (start_checked-Reads os ports input)
        (λ c token. start_body-locks os ports input c.0 c.1 c.2 token)
        (λ c token. start_body-failed os ports input c.0 c.1 c.2 token) failed

  -- A `StartTurn` that answers passed its checks, put exactly one job in the queue, for the turn of
  -- its answer and with what was checked, and left the lock of the thread held by the token of the
  -- job, for the lock's time to live from a time at which the clock was read.
  pub start_turn-queued :
      (input : StartTurnInput) (answer : StartTurnResult)
      → (start_turn os ports input w).0 ≡ ok answer
      → (c : String × List String × (String × String × String)) × (token : String) × (n : ℕ)
        × ((start_checked os ports input w).0 ≡ ok c)
        × Taken input.thread_id token
            (unix (os.clock n) + ports.lock_ttl_sec)
            (start_job input c.0 c.1 c.2 token answer.turn_id)
            w
            (start_turn os ports input w).1
  unfolding start_turn start_locked
  start_turn-queued input answer done =
      guarded-ok os ports.lock_ttl_sec input.thread_id (start_checked os ports input)
        (λ c token. start_body os ports input c.0 c.1 c.2 token) w
        (λ c token res. start_job input c.0 c.1 c.2 token res.turn_id) answer
        (start_checked-Reads os ports input)
        (λ c token. start_body-locks os ports input c.0 c.1 c.2 token)
        (λ c token. start_body-queued os ports input c.0 c.1 c.2 token) done

  -- When the lock file can be read and removed, a `RetryTurn` that fails leaves the queue of the
  -- worker as it was, and no lock of the thread that was not there before.
  pub retry_turn-failed :
      (input : RetryTurnInput) (e : Error)
      → CanRelease os
      → (retry_turn os ports input w).0 ≡ err e
      → Unchanged input.thread_id w (retry_turn os ports input w).1
  unfolding retry_turn retry_locked
  retry_turn-failed input e can failed =
      guarded-failed os ports.lock_ttl_sec input.thread_id (retry_checked os ports input)
        (λ c token. retry_body os ports input c.0 c.1 c.2 token) w e can
        (retry_checked-Reads os ports input)
        (λ c token. retry_body-locks os ports input c.0 c.1 c.2 token)
        (λ c token. retry_body-failed os ports input c.0 c.1 c.2 token) failed

  pub retry_turn-Taken :
      (input : RetryTurnInput) (answer : StartTurnResult)
      → (retry_turn os ports input w).0 ≡ ok answer
      → (c : TranscriptItem × ℕ × (String × String × String)) × (token : String) × (n : ℕ)
        × ((retry_checked os ports input w).0 ≡ ok c)
        × Taken input.thread_id token
            (unix (os.clock n) + ports.lock_ttl_sec)
            (retry_job input c.0 c.2 token)
            w
            (retry_turn os ports input w).1
  unfolding retry_turn retry_locked
  retry_turn-Taken input answer done =
      guarded-ok os ports.lock_ttl_sec input.thread_id (retry_checked os ports input)
        (λ c token. retry_body os ports input c.0 c.1 c.2 token) w
        (λ c token res. retry_job input c.0 c.2 token) answer (retry_checked-Reads os ports input)
        (λ c token. retry_body-locks os ports input c.0 c.1 c.2 token)
        (λ c token. retry_body-queued os ports input c.0 c.1 c.2 token) done
