-- ===== src/Worker/Ending.antt =====
-- worker.go: what a turn leaves of the lock, the queue and the other threads.
use buat_postingan.Base.{ℕ, String, ◌≡◌, ◌∙◌, sym, ap, refl, arith, false, Option, List, str_eq}
use buat_postingan.Exec.{Result, ok, err, proceed, dropping, pure}
use buat_postingan.Json.{Payload}
use buat_postingan.Domain.{TurnJob}
use buat_postingan.Jsonl.Disk.{Os, SeqFile, LockRecord, LockFile, World}
use buat_postingan.Jsonl.Store
use buat_postingan.Jsonl.Interrupt
use buat_postingan.Jsonl.Lock.{release}
use buat_postingan.Jsonl.Lock.Holding.{CanRelease, release-own, release-queue}
use buat_postingan.Webchat.Turns.Locking.{locks_of, queue_of}
use buat_postingan.Webchat.Turns.Holding.{Taken}
use buat_postingan.Worker.{Deps}
use buat_postingan.Worker.Run.{run, ended, process}
use buat_postingan.Worker.Frame.{IsFramed, SparedBy}
use buat_postingan.Worker.Frame.Turn.{run-Keeps, ended-Keeps, clear_active_turn-Keeps}

module _ (os : Os) (tid : String) where
  locks_of-IsFramed : IsFramed os tid locks_of
  unfolding Store.append_item Store.next_seq Store.append_numbered Store.append_conversation_meta
      Interrupt.clear
  locks_of-IsFramed = record {
    quiet = record { same = λ v w h. h.locks; index = λ meta. record { kept = λ w. ground arith } };
    item = λ item. record { kept = λ w. ground arith };
    flag = λ turn. record { kept = λ w. ground arith };
  }

  queue_of-IsFramed : IsFramed os tid queue_of
  unfolding Store.append_item Store.next_seq Store.append_numbered Store.append_conversation_meta
      Interrupt.clear
  queue_of-IsFramed = record {
    quiet = record { same = λ v w h. h.queue; index = λ meta. record { kept = λ w. ground arith } };
    item = λ item. record { kept = λ w. ground arith };
    flag = λ turn. record { kept = λ w. ground arith };
  }

-- The files of a thread: its lines, its counter, its lock and its stop requests.
abbrev pub files_of : String → World → List Payload × SeqFile × LockFile × List String
files_of t w = (w.lines t, w.seqs t, w.locks t, w.flags t)

files_of-IsFramed : (os : Os) (tid t : String) → str_eq tid t ≡ false → IsFramed os tid (files_of t)
unfolding Store.append_item Store.next_seq Store.append_numbered Store.append_conversation_meta
    Interrupt.clear
files_of-IsFramed os tid t other = record {
  quiet = record {
    same = λ v w h. cc (h.lines, h.seqs, h.locks, h.flags);
    index = λ meta. record { kept = λ w. ground arith };
  };
  item = λ item. record { kept = λ w. ground arith };
  flag = λ turn. record { kept = λ w. ground arith };
}

module _ (os : Os) (deps : Deps) (job : TurnJob) where
  -- the worker's state when it is about to release the lock
  abbrev pub before_release : World → World
  before_release w =
      (Store.clear_active_turn os job.thread_id
        (ended os deps job (run os deps job w).0 (run os deps job w).1).1).1

  after_ended :
      (r : Result (Option (String × String))) (v : World)
      → (proceed
          (ended os deps job r v).0
          (λ started.
            dropping
              (Store.clear_active_turn os job.thread_id)
              (dropping (release os job.thread_id job.lock_token) (pure started)))
          (ended os deps job r v).1).1
        ≡ (release os job.thread_id job.lock_token
            (Store.clear_active_turn os job.thread_id (ended os deps job r v).1).1).1
  after_ended (ok started) v = refl
  after_ended (err e) v = refl

  pub process-release :
      (w : World)
      → (process os deps job w).1 ≡ (release os job.thread_id job.lock_token (before_release w)).1
  unfolding process
  process-release w = after_ended (run os deps job w).0 (run os deps job w).1

  before_release-Framed :
      {X : Type 0} (f : World → X) (w : World)
      → IsFramed os job.thread_id f
      → SparedBy f deps.tools
      → f (before_release w) ≡ f w
  before_release-Framed f w h safe =
      (clear_active_turn-Keeps os deps f job h.quiet).kept
        (ended os deps job (run os deps job w).0 (run os deps job w).1).1
      ∙ (ended-Keeps os deps f job h safe (run os deps job w).0).kept (run os deps job w).1
      ∙ (run-Keeps os deps f job h safe).kept w

  -- When the lock file can be read and removed, and the tools leave the locks alone, a job that is processed while its token holds the
  -- lock of its thread leaves the thread without a lock, whatever fails on the way.
  pub process-unlocked :
      (rec : LockRecord) (w : World)
      → CanRelease os
      → SparedBy locks_of deps.tools
      → w.locks job.thread_id ≡ LockFile.held rec
      → rec.token ≡ job.lock_token
      → (process os deps job w).1.locks job.thread_id ≡ LockFile.absent
  process-unlocked rec w can safe held same =
      ap (λ v. v.locks job.thread_id) (process-release w)
      ∙ ap (λ token. (release os job.thread_id token (before_release w)).1.locks job.thread_id)
          (sym same)
      ∙ release-own os 0 job.thread_id (before_release w) rec can (
          ap (λ locks. locks job.thread_id)
            (before_release-Framed locks_of w (locks_of-IsFramed os job.thread_id) safe)
          ∙ held)

  release-files :
      (t : String) (w : World)
      → str_eq job.thread_id t ≡ false
      → files_of t (release os job.thread_id job.lock_token w).1 ≡ files_of t w
  unfolding release
  release-files t w other = ground arith

  -- When the tools leave the files of another thread and the queue alone, a job that is processed
  -- changes neither: not the lines, the counter, the lock or the stop requests of that thread.
  pub process-other :
      (t : String) (w : World)
      → str_eq job.thread_id t ≡ false
      → SparedBy (files_of t) deps.tools
      → SparedBy queue_of deps.tools
      → (files_of t (process os deps job w).1 ≡ files_of t w)
        × ((process os deps job w).1.queue ≡ w.queue)
  process-other t w other safe safe_queue = (
    ap (files_of t) (process-release w)
        ∙ release-files t (before_release w) other
        ∙ before_release-Framed (files_of t) w (files_of-IsFramed os job.thread_id t other) safe,
    ap (λ v. v.queue) (process-release w)
        ∙ release-queue os 0 job.thread_id (before_release w) job.lock_token
        ∙ before_release-Framed queue_of w (queue_of-IsFramed os job.thread_id) safe_queue,
  )

  -- A job that was put in the queue with the lock of its thread, and is then processed, leaves the
  -- thread without a lock, when the lock file can be read and removed and the tools leave the locks
  -- alone.
  pub process-Taken :
      (expires_at : ℕ) (w v : World)
      → CanRelease os
      → SparedBy locks_of deps.tools
      → Taken job.thread_id job.lock_token expires_at job w v
      → (process os deps job v).1.locks job.thread_id ≡ LockFile.absent
  process-Taken expires_at w v can safe taken =
      process-unlocked (record { token = job.lock_token; expires_at = expires_at }) v can safe
        taken.lock refl
