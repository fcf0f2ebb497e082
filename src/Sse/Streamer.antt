-- ===== src/Sse/Streamer.antt =====
-- streamer.go: the items after a cursor, sent one after the other.
pub mod Resume
use buat_postingan.Base.{ℕ, Option, none, some, List, [], ◌∷◌, ◌++◌, leb, String, if◌then◌else◌}
use buat_postingan.Apperr.{Error}
use buat_postingan.Exec.{Result, ok, err, Exec}
use buat_postingan.Domain.{TranscriptItem, ThreadSnapshot}
use buat_postingan.Jsonl.Disk.{Os, World}
use buat_postingan.Jsonl.Store
use buat_postingan.Sse.Events.{Event, map_item}

-- A reader: the cursor of `Subscribe`, and the events that it was sent.
pub record Stream : Type 0 where
  pub cursor : ℕ
  pub sent : List Event

-- `EventEmitFn`, by what was sent before: the error, if it fails
abbrev pub Emit : Type 0
Emit = List Event → Event → Option Error

-- What follows an event: the error, or the rest of the loop with the cursor moved on.
abbrev pub emitted :
    Option Error
    → ℕ
    → Event
    → (Stream → Result (Unit {0}) × Stream)
    → Stream
    → Result (Unit {0}) × Stream
emitted (some e) seq event rest s = (err e, s)
emitted none seq event rest s = rest (record { cursor = seq; sent = s.sent ++ event ∷ [] })

-- The loop of `emitNew`.
unfoldable pub emit_items : Emit → List TranscriptItem → Stream → Result (Unit {0}) × Stream
unfolding map_item
emit_items emit [] s = (ok tt, s)
emit_items emit (it ∷ items) s =
    let rest = emit_items emit items in
    if leb it.seq s.cursor
    then rest s
    else emitted (emit s.sent (map_item it)) it.seq (map_item it) rest s

abbrev from_snapshot : Emit → Result ThreadSnapshot → Stream → Result (Unit {0}) × Stream
from_snapshot emit (ok snap) s = emit_items emit snap.items s
from_snapshot emit (err e) s = (err e, s)

-- `emitNew`
unfoldable pub emit_new : Os → Emit → String → Exec (World × Stream) (Unit {0})
unfolding emit_items
emit_new os emit tid state =
    let read = Store.get_thread os tid state.1.cursor state.0 in
    let sent = from_snapshot emit read.0 state.1 in (sent.0, (read.1, sent.1))
