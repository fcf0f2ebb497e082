-- ===== src/Worker/Closing.antt =====
-- worker.go: the last item of a turn.
pub mod Turn
pub mod Stop
use buat_postingan.Base.{
  ℕ, zero, suc, String, Bool, true, false, ◌≡◌, refl, sym, ap, ◌∙◌, arith, eq_refl, Option, none,
  some, List, [], ◌∷◌, ◌++◌, ◌⊎◌, inl, inr, Bool-cases, str_eq, is_empty, subst,
}
use buat_postingan.Exec.{
  Gives, Gives-after, ok-injective, Result, ok, err, Keeps, >>=-eq-ok, pure, ◌>>=◌, ◌>>◌, dropping,
}
use buat_postingan.Json.{Payload, Fields, as_text}
use buat_postingan.Domain.{TranscriptItem, TurnJob}
use buat_postingan.Domain.ItemType
use buat_postingan.Jsonl.LineMap.{item_to_line_map}
use buat_postingan.Jsonl.Disk.{Os, World, M}
use buat_postingan.Jsonl.Store
use buat_postingan.Worker.{payload_of}
use buat_postingan.Worker.Items.{append_id, append, chosen_id}

-- the last line of a thread
abbrev pub last_line : List Payload → Option Payload
last_line [] = none
last_line (m ∷ []) = some m
last_line (m ∷ m' ∷ ms) = last_line (m' ∷ ms)

last_line-append : (ms : List Payload) (m : Payload) → last_line (ms ++ m ∷ []) ≡ some m
last_line-append [] m = refl
last_line-append (x ∷ []) m = refl
last_line-append (x ∷ y ∷ ms) m = last_line-append (y ∷ ms) m

-- The last of the lines is an item of the turn, of the type.
abbrev pub ClosedIn : TurnJob → String → List Payload → Type 0
ClosedIn job typ lines =
    (m : Payload) × (last_line lines ≡ some m)
    × (as_text (m "type") ≡ typ)
    × (as_text (m "turn_id") ≡ job.turn_id)

abbrev pub ClosedBy : TurnJob → String → World → Type 0
ClosedBy job typ w = ClosedIn job typ (w.lines job.thread_id)

-- The last line of the thread says that the turn completed or that it failed.
abbrev pub Closed : TurnJob → World → Type 0
Closed job w = ClosedBy job ItemType.turn_completed w ⊎ ClosedBy job ItemType.turn_failed w

pub Closed-lines : (job : TurnJob) (w v : World) → v.lines ≡ w.lines → Closed job w → Closed job v
Closed-lines job w v same closed =
    subst
      (λ lines.
        ClosedIn job ItemType.turn_completed (lines job.thread_id)
        ⊎ ClosedIn job ItemType.turn_failed (lines job.thread_id))
      (sym same) closed

-- The item is the new last line of the thread.
pub record IsWritten (tid : String) (it : TranscriptItem) (w v : World) : Type 0 where
  pub lines : v.lines tid ≡ w.lines tid ++ item_to_line_map it ∷ []

turn_of_line : (it : TranscriptItem) → as_text (item_to_line_map it "turn_id") ≡ it.turn_id
unfolding item_to_line_map
turn_of_line it = ground arith

module _ (os : Os) (tid : String) (item it : TranscriptItem) (w : World) where
  append_item-IsWritten :
      (Store.append_item os tid item w).0 ≡ ok it
      → IsWritten tid it w (Store.append_item os tid item w).1
        × (it.item_type ≡ item.item_type)
        × (it.turn_id ≡ item.turn_id)
  unfolding Store.append_item Store.next_seq Store.append_numbered
  append_item-IsWritten done =
      (record { lines = ground (arith, eq_refl tid) }, ground arith, ground arith)

chosen_id-lines :
    (os : Os) (item_id : String) (w : World) → (chosen_id os item_id w).1.lines ≡ w.lines
chosen_id-lines os item_id w = ground arith

module _ (os : Os) (job : TurnJob) (typ : String) (it : TranscriptItem) (w : World) where
  pub append_id-IsWritten :
      (item_id : String) (fields : Fields)
      → (append_id os job typ item_id fields w).0 ≡ ok it
      → IsWritten job.thread_id it w (append_id os job typ item_id fields w).1
        × (it.item_type ≡ typ)
        × (it.turn_id ≡ job.turn_id)
  unfolding append_id
  append_id-IsWritten item_id fields done =
      let (id, chose, rest) = >>=-eq-ok (chosen_id os item_id) _ w it done in
      let v = (chosen_id os item_id w).1 in
      let stamped : TranscriptItem = record {
        seq = 0;
        id = id;
        thread_id = job.thread_id;
        turn_id = job.turn_id;
        item_type = typ;
        payload = payload_of fields;
        at = os.clock v.tick;
      } in
      let (written, typed, turned) =
        append_item-IsWritten os job.thread_id stamped it (record v { tick = suc v.tick })
          (sym (ap (λ p. p.0) rest) ∙ done) in
      (
        record {
          lines =
              ap (λ p. p.1.lines job.thread_id) rest
              ∙ written.lines
              ∙ ap (λ lines. lines job.thread_id ++ item_to_line_map it ∷ [])
                  (chosen_id-lines os item_id w);
        },
        typed,
        turned,
      )

  IsWritten-ClosedBy :
      (v : World)
      → IsWritten job.thread_id it w v × (it.item_type ≡ typ) × (it.turn_id ≡ job.turn_id)
      → ClosedBy job typ v
  unfolding item_to_line_map
  IsWritten-ClosedBy v (written, typed, turn) = (
    item_to_line_map it,
    ap last_line written.lines ∙ last_line-append (w.lines job.thread_id) (item_to_line_map it),
    typed,
    turn_of_line it ∙ turn,
  )

pub append-ClosedBy :
    (os : Os) (job : TurnJob) (typ : String) (it : TranscriptItem) (fields : Fields) (w : World)
    → (append os job typ fields w).0 ≡ ok it
    → ClosedBy job typ (append os job typ fields w).1
unfolding append
append-ClosedBy os job typ it fields w wrote =
    IsWritten-ClosedBy os job typ it w (append os job typ fields w).1
      (append_id-IsWritten os job typ it w "" fields wrote)

-- An item, and an answer after it.
pub append_then-Gives :
    {A : Type 0} (P : A → World → Type 0) (os : Os) (job : TurnJob) (typ : String) (fields : Fields)
    (a : A)
    → ((w : World) → ClosedBy job typ w → P a w)
    → Gives P (append os job typ fields >> pure a)
append_then-Gives P os job typ fields a h =
    Gives-after P (λ it w. ClosedBy job typ w) (append os job typ fields) (λ _. pure a)
      (record { given = λ w it wrote. append-ClosedBy os job typ it fields w wrote })
      (λ it w b closed done. subst (λ x. P x w) (ok-injective a b done) (h w closed))
