-- ===== src/Jsonl/Disk.antt =====
-- The files below the storage root, and what the operating system answers.
use buat_postingan.Base.{◌≡◌, refl, ◌∙◌, ℕ, suc, String, Bool, List, if◌then◌else◌}
use buat_postingan.Apperr.{plain}
use buat_postingan.Exec.{Result, ok, err, Exec, proceed, lift, ◌>>=◌}
use buat_postingan.Json.{Payload}
use buat_postingan.Domain.{TurnJob}
use buat_postingan.Jsonl.Rows.{SessionMetaRow}

-- The calls that can fail, one for each file and kind of call.
pub data Io : Type 0 where
  index_read index_append lines_read lines_append lines_remove : Io
  seq_open seq_read seq_truncate seq_write seq_remove : Io
  lock_open lock_read lock_truncate lock_write lock_stat lock_remove : Io
  flag_write flag_stat flag_list flag_remove : Io

-- The operating system, by the number of the call: whether a call fails, what the clock shows (in
-- nanoseconds), which random text an id gets, and where a thread's file stands.
pub record Os : Type 0 where
  pub fails : ℕ → Io → Bool
  pub clock : ℕ → ℕ
  pub random : ℕ → String
  pub jsonl_path : String → String

-- `threads/<id>.seq`: missing, empty, a decimal number below 2^64, or a text that is none
pub data SeqFile : Type 0 where
  absent blank garbage : SeqFile
  number : ℕ → SeqFile

-- `lockRecord`; its `thread_id` and `acquired_at` are written and never read
pub record LockRecord : Type 0 where
  pub token : String
  pub expires_at : ℕ

-- `threads/<id>.lock`: missing, empty or no lock record, or a record
pub data LockFile : Type 0 where
  absent blank : LockFile
  held : LockRecord → LockFile

-- `index` are the rows of session_index.jsonl that read as rows with a thread id, `lines` the
-- objects of threads/<id>.jsonl, `flags` the names of the files in interrupt/<id>.
-- `queue` are the jobs that the worker was given, the last one first.
pub record World : Type 0 where
  pub index : List SessionMetaRow
  pub lines : String → List Payload
  pub seqs : String → SeqFile
  pub locks : String → LockFile
  pub flags : String → List String
  pub queue : List TurnJob
  pub tick : ℕ

abbrev pub M : Type 0 → Type 0
M A = Exec World A

module _ (os : Os) where
  -- Whether the next call fails.
  abbrev pub failing : Io → M Bool
  failing call w = (ok (os.fails w.tick call), record w { tick = suc w.tick })

  -- A call whose error is returned.
  abbrev pub io : Io → M (Unit {0})
  io call w = (
    if os.fails w.tick call then err (plain "i/o error") else ok tt,
    record w { tick = suc w.tick },
  )

  -- `time.Now()`
  abbrev pub now : M ℕ
  now w = (ok (os.clock w.tick), record w { tick = suc w.tick })

  -- An id or a token made from random bytes.
  abbrev pub fresh : M String
  fresh w = (ok (os.random w.tick), record w { tick = suc w.tick })

-- The files and the queue of the second world are those of the first.
pub record SameFiles (v w : World) : Type 0 where
  pub index : w.index ≡ v.index
  pub lines : w.lines ≡ v.lines
  pub seqs : w.seqs ≡ v.seqs
  pub locks : w.locks ≡ v.locks
  pub flags : w.flags ≡ v.flags
  pub queue : w.queue ≡ v.queue

pub SameFiles-refl : (w : World) → SameFiles w w
SameFiles-refl w = record {
  index = refl;
  lines = refl;
  seqs = refl;
  locks = refl;
  flags = refl;
  queue = refl;
}

pub SameFiles-trans : (u v w : World) → SameFiles u v → SameFiles v w → SameFiles u w
SameFiles-trans u v w h k = record {
  index = k.index ∙ h.index;
  lines = k.lines ∙ h.lines;
  seqs = k.seqs ∙ h.seqs;
  locks = k.locks ∙ h.locks;
  flags = k.flags ∙ h.flags;
  queue = k.queue ∙ h.queue;
}

-- A computation that leaves every file and the queue as they were, whatever it answers
pub record Reads {A : Type 0} (m : M A) : Type 0 where
  pub at : (w : World) → SameFiles w (m w).1

module _ {A B : Type 0} where
  Reads-proceed : (r : Result A) (k : A → M B) → ((a : A) → Reads (k a)) → Reads (proceed r k)
  Reads-proceed (ok a) k h = h a
  Reads-proceed (err e) k h = record { at = SameFiles-refl }

  pub Reads-bind : (m : M A) (k : A → M B) → Reads m → ((a : A) → Reads (k a)) → Reads (m >>= k)
  Reads-bind m k hm hk = record {
    at = λ w. SameFiles-trans w (m w).1 _ (hm.at w) ((Reads-proceed (m w).0 k hk).at (m w).1);
  }

module _ {A : Type 0} where
  pub Reads-lift : (r : Result A) → Reads {A = A} (lift r)
  Reads-lift r = record { at = SameFiles-refl }
