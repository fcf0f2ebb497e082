-- ===== src/Webchat/Turns/Locking.antt =====
-- methods.go: what the bodies of `StartTurn` and `RetryTurn` do to the locks and the queue.
use buat_postingan.Base.{ℕ, String, ◌≡◌, refl, List, ◌∷◌, arith}
use buat_postingan.Exec.{
  pure, ◌>>◌, Keeps, Keeps-bind, Keeps-lift, FailKeeps, FailKeeps-bind, Steps, Steps-bind,
}
use buat_postingan.Domain.{TurnJob, TranscriptItem}
use buat_postingan.Domain.Ids.{new_turn_id}
use buat_postingan.Jsonl.Rows.{SessionMetaRow}
use buat_postingan.Jsonl.Disk.{Os, LockFile, World, fresh}
use buat_postingan.Jsonl.Floor.{acquire}
use buat_postingan.Jsonl.Store.{seq_head, resolve_conversation, append_conversation_meta}
use buat_postingan.Webchat.Ports.{Ports}
use buat_postingan.Webchat.Turns.{
  StartTurnInput, StartTurnResult, start_job, queued, enqueue, start_body, RetryTurnInput,
  retry_job, retry_body,
}

abbrev pub locks_of : World → String → LockFile
locks_of w = w.locks

abbrev pub queue_of : World → List TurnJob
queue_of w = w.queue

abbrev pub index_of : World → List SessionMetaRow
index_of w = w.index

acquire-locks :
    (os : Os) (tid : String) (admin : ℕ) (turn : String)
    → Keeps locks_of (acquire os tid admin turn)
unfolding acquire resolve_conversation append_conversation_meta
acquire-locks os tid admin turn = record { kept = λ w. ground arith }

acquire-queue :
    (os : Os) (tid : String) (admin : ℕ) (turn : String)
    → Keeps queue_of (acquire os tid admin turn)
unfolding acquire resolve_conversation append_conversation_meta
acquire-queue os tid admin turn = record { kept = λ w. ground arith }

seq_head-locks : (os : Os) (tid : String) → Keeps locks_of (seq_head os tid)
unfolding seq_head
seq_head-locks os tid = record { kept = λ w. ground arith }

seq_head-queue : (os : Os) (tid : String) → Keeps queue_of (seq_head os tid)
unfolding seq_head
seq_head-queue os tid = record { kept = λ w. ground arith }

fresh-locks : (os : Os) → Keeps locks_of (fresh os)
fresh-locks os = record { kept = λ w. refl }

fresh-queue : (os : Os) → Keeps queue_of (fresh os)
fresh-queue os = record { kept = λ w. refl }

module _ (os : Os) (ports : Ports) where
  enqueue-locks : (job : TurnJob) → Keeps locks_of (enqueue os ports job)
  unfolding enqueue
  enqueue-locks job = record { kept = λ w. ground arith }

  enqueue-index : (job : TurnJob) → Keeps index_of (enqueue os ports job)
  unfolding enqueue
  enqueue-index job = record { kept = λ w. ground arith }

  -- the last step of both bodies: an answer comes with the job at the head of the queue
  enqueued :
      (g : StartTurnResult → TurnJob) (job : TurnJob) (answer : StartTurnResult)
      → g answer ≡ job
      → Steps queue_of (λ res queue. g res ∷ queue) (enqueue os ports job >> pure answer)
  unfolding enqueue
  enqueued g job answer e = record { stepped = λ w res done. ground arith }

  enqueue-failed :
      (job : TurnJob) (answer : StartTurnResult)
      → FailKeeps queue_of (enqueue os ports job >> pure answer)
  unfolding enqueue
  enqueue-failed job answer = record { kept = λ w e failed. ground arith }

  enqueue-answer :
      {X : Type 0} (f : World → X) (job : TurnJob) (answer : StartTurnResult)
      → Keeps f (enqueue os ports job)
      → Keeps f (enqueue os ports job >> pure answer)
  enqueue-answer f job answer h = Keeps-bind f _ _ h (λ _. record { kept = λ w. refl })

module _ (os : Os) (ports : Ports) (input : StartTurnInput) (safe : String) (att_ids : List String)
    (overrides : String × String × String) (token : String) where
  pub start_body-locks : Keeps locks_of (start_body os ports input safe att_ids overrides token)
  unfolding start_body
  start_body-locks = Keeps-bind locks_of _ _ (fresh-locks os) λ raw.
      Keeps-bind locks_of _ _ (Keeps-lift locks_of (new_turn_id raw)) λ turn.
        Keeps-bind locks_of _ _ (acquire-locks os input.thread_id input.admin_user_id turn) λ _.
          Keeps-bind locks_of _ _ (seq_head-locks os input.thread_id) λ head.
            enqueue-answer os ports locks_of (start_job input safe att_ids overrides token turn)
              (queued input.thread_id turn input.admin_user_id head) (enqueue-locks os ports _)

  pub start_body-failed :
      FailKeeps queue_of (start_body os ports input safe att_ids overrides token)
  unfolding start_body
  start_body-failed = FailKeeps-bind queue_of _ _ (fresh-queue os) λ raw.
      FailKeeps-bind queue_of _ _ (Keeps-lift queue_of (new_turn_id raw)) λ turn.
        FailKeeps-bind queue_of _ _ (acquire-queue os input.thread_id input.admin_user_id turn) λ _.
          FailKeeps-bind queue_of _ _ (seq_head-queue os input.thread_id) λ head.
            enqueue-failed os ports (start_job input safe att_ids overrides token turn)
              (queued input.thread_id turn input.admin_user_id head)

  pub start_body-queued :
      Steps queue_of
        (λ res queue. start_job input safe att_ids overrides token res.turn_id ∷ queue)
        (start_body os ports input safe att_ids overrides token)
  unfolding start_body
  start_body-queued = Steps-bind queue_of _ _ _ (fresh-queue os) λ raw.
      Steps-bind queue_of _ _ _ (Keeps-lift queue_of (new_turn_id raw)) λ turn.
        Steps-bind queue_of _ _ _ (acquire-queue os input.thread_id input.admin_user_id turn) λ _.
          Steps-bind queue_of _ _ _ (seq_head-queue os input.thread_id) λ head.
            enqueued os ports (λ res. start_job input safe att_ids overrides token res.turn_id)
              (start_job input safe att_ids overrides token turn)
              (queued input.thread_id turn input.admin_user_id head) refl

module _ (os : Os) (ports : Ports) (input : RetryTurnInput) (msg : TranscriptItem) (head : ℕ)
    (overrides : String × String × String) (token : String) where
  pub retry_body-locks : Keeps locks_of (retry_body os ports input msg head overrides token)
  unfolding retry_body
  retry_body-locks =
      Keeps-bind locks_of _ _ (acquire-locks os input.thread_id input.admin_user_id input.turn_id)
        λ _.
          enqueue-answer os ports locks_of (retry_job input msg overrides token)
            (queued input.thread_id input.turn_id input.admin_user_id head)
            (enqueue-locks os ports _)

  pub retry_body-failed : FailKeeps queue_of (retry_body os ports input msg head overrides token)
  unfolding retry_body
  retry_body-failed =
      FailKeeps-bind queue_of _ _
        (acquire-queue os input.thread_id input.admin_user_id input.turn_id)
        λ _.
          enqueue-failed os ports (retry_job input msg overrides token)
            (queued input.thread_id input.turn_id input.admin_user_id head)

  pub retry_body-queued :
      Steps queue_of
        (λ res queue. retry_job input msg overrides token ∷ queue)
        (retry_body os ports input msg head overrides token)
  unfolding retry_body
  retry_body-queued =
      Steps-bind queue_of _ _ _ (acquire-queue os input.thread_id input.admin_user_id input.turn_id)
        λ _.
          enqueued os ports (λ res. retry_job input msg overrides token)
            (retry_job input msg overrides token)
            (queued input.thread_id input.turn_id input.admin_user_id head) refl
