-- ===== src/Jsonl/Interrupt.antt =====
-- interrupt.go: a stop request is a file in the thread's directory below interrupt/.
pub mod Flags
use buat_postingan.Base.{
  String, Bool, true, false, List, [], ◌∷◌, str_eq, ◌||◌, update, if◌then◌else◌,
}
use Prim.Native.String.{◌++◌ as append}
use buat_postingan.Exec.{pure, gets, modify, ◌>>=◌, ◌>>◌}
use buat_postingan.Jsonl.Disk.{Os, M, io, flag_write, flag_stat, flag_remove}

-- `interruptFlagPath`: the file of a turn, in the directory of its thread
unfoldable pub flag_name : String → String
flag_name turn = append turn ".flag"

-- whether a directory has the file of the turn
unfoldable pub has_flag : List String → String → Bool
has_flag [] turn = false
has_flag (file ∷ files) turn = str_eq file (flag_name turn) || has_flag files turn

-- the directory without that file
unfoldable pub without_flag : List String → String → List String
without_flag [] turn = []
without_flag (file ∷ files) turn =
    let rest = without_flag files turn in if str_eq file (flag_name turn) then rest else file ∷ rest

module _ (os : Os) where
  -- `Request`
  unfoldable pub request : String → String → M (Unit {0})
  unfolding has_flag
  request tid turn = do
    io os flag_write
    modify (λ w. record w {
      flags =
          update w.flags tid
            (if has_flag (w.flags tid) turn then w.flags tid else flag_name turn ∷ w.flags tid);
    })

  -- `IsRequested`
  unfoldable pub is_requested : String → String → M Bool
  unfolding has_flag
  is_requested tid turn = do
    present ← gets (λ w. has_flag (w.flags tid) turn)
    if present then (do io os flag_stat; pure true) else pure false

  -- `Clear`
  unfoldable pub clear : String → String → M (Unit {0})
  unfolding has_flag without_flag
  clear tid turn = do
    present ← gets (λ w. has_flag (w.flags tid) turn)
    if present
        then (do
          io os flag_remove
          modify (λ w. record w { flags = update w.flags tid (without_flag (w.flags tid) turn) }))
        else pure tt
