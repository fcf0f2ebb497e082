-- ===== src/Worker/Served.antt =====
-- methods.go and worker.go: a turn from the request to the release of the lock.
use buat_postingan.Base.{◌+◌, ◌≡◌, ◌∷◌, refl}
use buat_postingan.Exec.{ok}
use buat_postingan.Domain.{TurnJob}
use buat_postingan.Jsonl.Disk.{Os, LockFile, World}
use buat_postingan.Jsonl.Lock.{unix}
use buat_postingan.Jsonl.Lock.Holding.{CanRelease}
use buat_postingan.Webchat.Ports.{Ports}
use buat_postingan.Webchat.Turns.{StartTurnInput, StartTurnResult, start_job, start_turn}
use buat_postingan.Webchat.Turns.Outcome.{start_turn-queued}
use buat_postingan.Webchat.Turns.Locking.{locks_of}
use buat_postingan.Worker.{Deps}
use buat_postingan.Worker.Frame.{SparedBy}
use buat_postingan.Worker.Run.{process}
use buat_postingan.Worker.Ending.{process-Taken}

module _ (os : Os) (ports : Ports) (deps : Deps) (w : World) where
  -- A `StartTurn` that answers puts one job in front of the queue, for the turn of its answer, and
  -- when the worker then processes that job, the thread is left without a lock, so that the next
  -- turn may start, as long as the lock file can be read and removed, and the tools leave the
  -- lock files alone.
  pub start_turn-process :
      (input : StartTurnInput) (answer : StartTurnResult)
      → CanRelease os
      → SparedBy locks_of deps.tools
      → (start_turn os ports input w).0 ≡ ok answer
      → (job : TurnJob) × ((start_turn os ports input w).1.queue ≡ job ∷ w.queue)
        × (job.turn_id ≡ answer.turn_id)
        × ((process os deps job (start_turn os ports input w).1).1.locks input.thread_id
            ≡ LockFile.absent)
  start_turn-process input answer can safe done =
      let (c, token, n, checked, taken) = start_turn-queued os ports w input answer done in
      let job = start_job input c.0 c.1 c.2 token answer.turn_id in
      (
        job,
        taken.queue,
        refl,
        process-Taken os deps job (unix (os.clock n) + ports.lock_ttl_sec) w
            (start_turn os ports input w).1 can safe taken,
      )
