-- ===== src/Jsonl/Store/Numbering.antt =====
-- store.go: the counter file and the sequence numbers of the items.
use buat_postingan.Base.{
  ℕ, ◌+◌, ◌<◌, ◌≤◌, ◌^◌, String, ◌≡◌, refl, ◌⊎◌, inl, inr, false, some, List, [], ◌∷◌, ◌++◌, arith,
  eq_refl, All, All-append, All-map, suc, Option, is_empty, ◌||◌, Bool-cases,
}
use buat_postingan.Exec.{Result, ok, err, proceed}
use buat_postingan.Json.{as_nat, Payload}
use buat_postingan.Domain.{TranscriptItem}
use buat_postingan.Jsonl.LineMap.{item_to_line_map}
use buat_postingan.Jsonl.Disk.{Os, World, seq_read, seq_write, lines_append}
use buat_postingan.Jsonl.Store.{seq_value, next_seq, append_numbered, append_item}

abbrev pub line_seq : Payload → ℕ
line_seq m = as_nat (m "seq")

abbrev pub Rising : List Payload → Type 0
Rising [] = Unit
Rising (m ∷ ms) = All (λ m'. line_seq m < line_seq m') ms × Rising ms

Rising-append :
    (ms : List Payload) (m : Payload) (n : ℕ)
    → All (λ m'. line_seq m' ≤ n) ms
    → n < line_seq m
    → Rising ms
    → Rising (ms ++ m ∷ [])
Rising-append [] m n below above h = (tt, tt)
Rising-append (x ∷ ms) m n below above h = (
  All-append (λ m'. line_seq x < line_seq m') ms (m ∷ []) h.0 (omega arith, tt),
  Rising-append ms m n below.1 above h.1,
)

-- The counter of the thread is `n`, and the numbers of its lines rise up to at most `n`.
pub record IsNumbered (tid : String) (n : ℕ) (w : World) : Type 0 where
  pub counter : seq_value (w.seqs tid) ≡ some n
  pub bounded : All (λ m. line_seq m ≤ n) (w.lines tid)
  pub rising : Rising (w.lines tid)

-- The counter file can be read and written.
pub record KeepsCounter (os : Os) : Type 0 where
  pub readable : (n : ℕ) → os.fails n seq_read ≡ false
  pub writable : (n : ℕ) → os.fails n seq_write ≡ false

-- What `nextSeq` leaves of a counter that was `n`.
abbrev Counted : ℕ → Result ℕ → Option ℕ → Type 0
Counted n (ok seq) counter = (seq ≡ n + 1) × (counter ≡ some (n + 1))
Counted n (err e) counter = counter ≡ some n

-- What `AppendItem` leaves of a thread whose counter was `n`: an item that is returned has the
-- next number; an item that is not may have used it up.
abbrev pub Appended : String → ℕ → Result TranscriptItem → World → Type 0
Appended tid n (ok item) w = (item.seq ≡ n + 1) × IsNumbered tid (n + 1) w
Appended tid n (err e) w = IsNumbered tid n w ⊎ IsNumbered tid (n + 1) w

module _ (os : Os) (tid : String) (n : ℕ) (w : World) where
  next_seq-Counted :
      KeepsCounter os
      → seq_value (w.seqs tid) ≡ some n
      → n + 1 < 2 ^ 64
      → Counted n (next_seq os tid w).0 (seq_value ((next_seq os tid w).1.seqs tid))
  unfolding next_seq
  next_seq-Counted good h room =
      ground
        (arith, eq_refl tid, good.readable (suc w.tick), good.writable (suc (suc (suc w.tick))))

  lines-next_seq : (next_seq os tid w).1.lines ≡ w.lines
  unfolding next_seq
  lines-next_seq = ground arith

module _ (os : Os) (tid : String) (n : ℕ) (item : TranscriptItem) where
  All-raise : (ms : List Payload) → All (λ m. line_seq m ≤ n) ms → All (λ m. line_seq m ≤ n + 1) ms
  All-raise ms h = All-map (λ m. line_seq m ≤ n) (λ m. line_seq m ≤ n + 1) ms (λ m b. omega arith) h

  append_numbered-Appended :
      (v : World)
      → seq_value (v.seqs tid) ≡ some (n + 1)
      → All (λ m. line_seq m ≤ n) (v.lines tid)
      → Rising (v.lines tid)
      → Appended tid n
          (append_numbered os tid item (n + 1) v).0
          (append_numbered os tid item (n + 1) v).1
  unfolding append_numbered as_nat item_to_line_map
  append_numbered-Appended v counter bounded rising =
      elim (Bool-cases (os.fails (suc v.tick) lines_append)) [
        | inl failed ↦ rw failed (
            inr (record {
              counter = counter;
              bounded = All-raise (v.lines tid) bounded;
              rising = rising;
            }))
        | inr written ↦ rw written (
            (
              refl,
              record {
                counter = counter;
                bounded = rw (eq_refl tid) (
                    All-append (λ m. line_seq m ≤ n + 1) (v.lines tid) _
                      (All-raise (v.lines tid) bounded) (omega arith, tt));
                rising =
                    rw (eq_refl tid) (Rising-append (v.lines tid) _ n bounded (omega arith) rising);
              },
            ))
      ]

  append_after :
      (r : Result ℕ) (v : World)
      → Counted n r (seq_value (v.seqs tid))
      → All (λ m. line_seq m ≤ n) (v.lines tid)
      → Rising (v.lines tid)
      → Appended tid n
          (proceed r (append_numbered os tid item) v).0
          (proceed r (append_numbered os tid item) v).1
  append_after (ok seq) v c bounded rising = rw c.0 (append_numbered-Appended v c.1 bounded rising)
  append_after (err e) v c bounded rising =
      inl (record { counter = c; bounded = bounded; rising = rising })

  -- Appending to a thread whose counter is `n`, with room for one more number and a counter file
  -- that reads and writes: an item that comes back has the number `n + 1`, the counter is then
  -- `n + 1`, and the numbers of the lines still rise up to at most the counter. After an error the
  -- counter is `n` or `n + 1`, and the same holds of the lines.
  pub append_item-Appended :
      (w : World)
      → KeepsCounter os
      → IsNumbered tid n w
      → n + 1 < 2 ^ 64
      → Appended tid n (append_item os tid item w).0 (append_item os tid item w).1
  unfolding append_item
  append_item-Appended w good h room =
      elim (Bool-cases (is_empty tid || is_empty item.item_type || is_empty item.id)) [
        | inl bad ↦ rw bad (inl h)
        | inr fine ↦ rw fine (
            append_after (next_seq os tid w).0 (next_seq os tid w).1
              (next_seq-Counted os tid n w good h.counter room)
              (rw (lines-next_seq os tid n w) h.bounded) (rw (lines-next_seq os tid n w) h.rising))
      ]
