-- ===== src/Jsonl/Lock/Holding.antt =====
-- lock.go: the lock file after acquiring and releasing.
use buat_postingan.Base.{ℕ, suc, ◌+◌, String, ◌≡◌, false, arith, eq_refl}
use buat_postingan.Apperr.{Error}
use buat_postingan.Exec.{ok, err}
use buat_postingan.Jsonl.Disk.{Os, LockRecord, LockFile, World, lock_read, lock_remove}
use buat_postingan.Jsonl.Lock.{unix, try_acquire, release}

-- The lock file can be read and removed.
pub record CanRelease (os : Os) : Type 0 where
  pub readable : (n : ℕ) → os.fails n lock_read ≡ false
  pub removable : (n : ℕ) → os.fails n lock_remove ≡ false

module _ (os : Os) (ttl_sec : ℕ) (tid : String) (w : World) where
  -- A token that is handed out is the one in the lock file.
  pub try_acquire-held :
      (token : String)
      → (try_acquire os ttl_sec tid w).0 ≡ ok token
      → (try_acquire os ttl_sec tid w).1.locks tid
        ≡ LockFile.held
            (record { token = token; expires_at = unix (os.clock (suc (suc w.tick))) + ttl_sec })
  unfolding try_acquire
  try_acquire-held token done = ground (arith, eq_refl tid)

  -- An attempt that fails leaves no lock that was not there.
  pub try_acquire-failed :
      (e : Error) (rec : LockRecord)
      → (try_acquire os ttl_sec tid w).0 ≡ err e
      → (try_acquire os ttl_sec tid w).1.locks tid ≡ LockFile.held rec
      → w.locks tid ≡ LockFile.held rec
  unfolding try_acquire
  try_acquire-failed e rec failed held = ground (arith, eq_refl tid)

  pub try_acquire-queue : (try_acquire os ttl_sec tid w).1.queue ≡ w.queue
  unfolding try_acquire
  try_acquire-queue = ground arith

  pub release-own :
      (rec : LockRecord)
      → CanRelease os
      → w.locks tid ≡ LockFile.held rec
      → (release os tid rec.token w).1.locks tid ≡ LockFile.absent
  unfolding release
  release-own rec can held =
      ground
        (arith, eq_refl tid, eq_refl rec.token, can.readable w.tick, can.removable (suc w.tick))

  pub release-queue : (token : String) → (release os tid token w).1.queue ≡ w.queue
  unfolding release
  release-queue token = ground arith
