-- ===== src/Jsonl/Interrupt/Flags.antt =====
-- interrupt.go: the stop requests of a thread as a set of turns.
use buat_postingan.Base.{String, Bool, ◌≡◌, arith}
use Prim.Native.String.{◌++◌ as append}
use buat_postingan.Exec.{ok}
use buat_postingan.Jsonl.Disk.{Os, World}
use buat_postingan.Jsonl.Interrupt.{has_flag, is_requested}

-- Whether the turn `j` of the thread `t` has a stop request.
abbrev pub flagged : World → String → String → Bool
flagged w t j = has_flag (w.flags t) j

module _ (os : Os) (w : World) (tid turn : String) where
  -- `IsRequested` answers whether the turn has a stop request, unless the file cannot be looked at.
  pub is_requested-flagged :
      (b : Bool) → (is_requested os tid turn w).0 ≡ ok b → b ≡ flagged w tid turn
  unfolding is_requested
  is_requested-flagged b done = ground arith
