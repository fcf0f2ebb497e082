-- ===== src/Jsonl/Lock.antt =====
-- lock.go: one active turn per thread, by a token with a time to live.
pub mod Exclusion
pub mod Holding
use buat_postingan.Base.{
  ℕ, zero, suc, ◌+◌, ◌*◌, ◌/◌, ◌^◌, String, Bool, true, false, Option, none, some, ltb, ◌==◌, ◌&&◌,
  not, str_eq, is_empty, update, if◌then◌else◌,
}
use buat_postingan.Apperr.{thread_busy, new}
use buat_postingan.Exec.{Result, ok, err, pure, fail, lift, gets, modify, ◌>>=◌, ◌>>◌}
use buat_postingan.Jsonl.Disk.{
  Os, LockRecord, LockFile, World, M, failing, io, now, fresh, lock_open, lock_read, lock_truncate,
  lock_write, lock_remove,
}

-- `defaultLockTTLSec`
abbrev pub default_lock_ttl_sec : ℕ
default_lock_ttl_sec = 300

-- `NewLock`: the time to live of the lock
unfoldable pub new_lock : ℕ → ℕ
new_lock ttl_sec = if ttl_sec == 0 then default_lock_ttl_sec else ttl_sec

-- `time.Now().Unix()`
abbrev pub unix : ℕ → ℕ
unix at = at / 1000000000

abbrev pub created_lock : LockFile → LockFile
created_lock LockFile.absent = LockFile.blank
created_lock f = f

abbrev pub set_lock : String → LockFile → M (Unit {0})
set_lock tid f = modify (λ w. record w { locks = update w.locks tid f })

-- `readLockRecord`: a record with an empty token counts as none
unfoldable pub read_lock_record : LockFile → Option LockRecord
read_lock_record LockFile.absent = none
read_lock_record LockFile.blank = none
read_lock_record (LockFile.held rec) = if is_empty rec.token then none else some rec

-- `ok && existing.ExpiresAt > now`
abbrev pub unexpired : Option LockRecord → ℕ → Bool
unexpired none at = false
unexpired (some rec) at = ltb at rec.expires_at

module _ (os : Os) where
  -- `TryAcquire`, under the lock of the file. A read error counts as an empty file.
  unfoldable pub try_acquire : ℕ → String → M String
  unfolding read_lock_record
  try_acquire ttl_sec tid = do
    io os lock_open
    modify (λ w. record w { locks = update w.locks tid (created_lock (w.locks tid)) })
    unread ← failing os lock_read
    file ← gets (λ w. w.locks tid)
    at ← now os
    if not unread && unexpired (read_lock_record file) (unix at)
        then fail (new 409 thread_busy "thread busy")
        else do
          token ← fresh os
          io os lock_truncate
          set_lock tid LockFile.blank
          io os lock_write
          set_lock tid (LockFile.held (record { token = token; expires_at = unix at + ttl_sec }))
          pure token

  -- `os.Remove`, its error dropped
  abbrev pub remove_lock : String → M (Unit {0})
  remove_lock tid = do
    kept ← failing os lock_remove
    modify (λ w. record w { locks = if kept then w.locks else update w.locks tid LockFile.absent })

  abbrev pub release_file : String → String → LockFile → M (Unit {0})
  release_file tid token LockFile.absent = pure tt
  release_file tid token LockFile.blank = io os lock_read
  release_file tid token (LockFile.held rec) = do
    io os lock_read
    if str_eq rec.token token then remove_lock tid else pure tt

  -- `Release`
  unfoldable pub release : String → String → M (Unit {0})
  release tid token = do file ← gets (λ w. w.locks tid); release_file tid token file

  abbrev pub busy_file : String → LockFile → M Bool
  busy_file tid LockFile.absent = pure false
  busy_file tid LockFile.blank = do io os lock_read; pure false
  busy_file tid (LockFile.held rec) = do
    io os lock_read
    at ← now os
    if ltb rec.expires_at (unix at) then (do remove_lock tid; pure false) else pure true

  -- `IsBusy`
  unfoldable pub is_busy : String → M Bool
  is_busy tid = do file ← gets (λ w. w.locks tid); busy_file tid file
