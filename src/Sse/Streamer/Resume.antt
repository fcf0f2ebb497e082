-- ===== src/Sse/Streamer/Resume.antt =====
-- streamer.go: a reader that fails somewhere and goes on later, over a transcript that grows.
use buat_postingan.Base.{
  ℕ, ◌<◌, ◌≤◌, ◌≡◌, refl, sym, ap, ◌∙◌, Option, none, some, List, [], ◌∷◌, ◌++◌, append_assoc,
  append-nil, map, leb, ltb, All, Bool-cases, inl, inr, arith, true, false, subst,
}
use native.Mathlib.Nat.{le_trans}
use buat_postingan.Apperr.{Error}
use buat_postingan.Exec.{Result, ok}
use buat_postingan.Domain.{TranscriptItem}
use buat_postingan.Jsonl.Store.{after}
use buat_postingan.Sse.Events.{Event, map_item}
use buat_postingan.Sse.Streamer.{Stream, Emit, emitted, emit_items}

-- The numbers of the items rise.
abbrev pub Ascending : List TranscriptItem → Type 0
Ascending [] = Unit
Ascending (it ∷ items) = All (λ it'. it.seq < it'.seq) items × Ascending items

-- the events of the items after a number
abbrev pub events_after : ℕ → List TranscriptItem → List Event
events_after n items = map map_item (after n items)

after-raise :
    (n m : ℕ) (items : List TranscriptItem)
    → n ≤ m
    → All (λ it. m < it.seq) items
    → after m items ≡ after n items
after-raise n m [] le h = refl
after-raise n m (it ∷ items) le h = ground (arith, h.0, after-raise n m items le h.1)

cursor_emitted :
    (failed : Option Error) (seq : ℕ) (event : Event) (rest : Stream → Result (Unit {0}) × Stream)
    (s : Stream)
    → ((t : Stream) → t.cursor ≤ (rest t).1.cursor)
    → s.cursor ≤ seq
    → s.cursor ≤ (emitted failed seq event rest s).1.cursor
cursor_emitted (some e) seq event rest s mono le = omega arith
cursor_emitted none seq event rest s mono le =
    le_trans le (mono (record { cursor = seq; sent = s.sent ++ event ∷ [] }))

cursor_mono :
    (emit : Emit) (items : List TranscriptItem) (s : Stream)
    → s.cursor ≤ (emit_items emit items s).1.cursor
unfolding emit_items
cursor_mono emit [] s = omega arith
cursor_mono emit (it ∷ items) s = elim (Bool-cases (leb it.seq s.cursor)) [
  | inl old ↦ rw old (cursor_mono emit items s)
  | inr new ↦ rw new (
      cursor_emitted (emit s.sent (map_item it)) it.seq (map_item it) (emit_items emit items) s
        (cursor_mono emit items) (ground arith))
]

-- What a run that ends well has sent.
abbrev Sent : List TranscriptItem → Stream → Result (Unit {0}) × Stream → Type 0
Sent items s r = (r.0 ≡ ok tt) → r.1.sent ≡ s.sent ++ events_after s.cursor items

after-above :
    (n : ℕ) (it : TranscriptItem) (items : List TranscriptItem) (sent : List Event)
    → ltb n it.seq ≡ true
    → All (λ it'. it.seq < it'.seq) items
    → (sent ++ map_item it ∷ []) ++ events_after it.seq items ≡ sent ++ events_after n (it ∷ items)
after-above n it items sent new above =
    append_assoc sent (map_item it ∷ []) (events_after it.seq items)
    ∙ rw (new, after-raise n it.seq items (ground arith) above) refl

Sent-emitted :
    (failed : Option Error) (it : TranscriptItem) (items : List TranscriptItem)
    (rest : Stream → Result (Unit {0}) × Stream) (s : Stream)
    → ltb s.cursor it.seq ≡ true
    → All (λ it'. it.seq < it'.seq) items
    → ((t : Stream) → Sent items t (rest t))
    → Sent (it ∷ items) s (emitted failed it.seq (map_item it) rest s)
Sent-emitted (some e) it items rest s new above ih done = cc
Sent-emitted none it items rest s new above ih done =
    ih (record { cursor = it.seq; sent = s.sent ++ map_item it ∷ [] }) done
    ∙ after-above s.cursor it items s.sent new above

after_old :
    (n : ℕ) (it : TranscriptItem) (items : List TranscriptItem)
    → leb it.seq n ≡ true
    → after n (it ∷ items) ≡ after n items
after_old n it items old = ground arith

emit_items-Sent :
    (emit : Emit) (items : List TranscriptItem) (s : Stream)
    → Ascending items
    → Sent items s (emit_items emit items s)
unfolding emit_items
emit_items-Sent emit [] s h = λ done. sym (append-nil s.sent)
emit_items-Sent emit (it ∷ items) s h = elim (Bool-cases (leb it.seq s.cursor)) [
  | inl old ↦ rw (old, after_old s.cursor it items old) (emit_items-Sent emit items s h.1)
  | inr new ↦ rw new (
      Sent-emitted (emit s.sent (map_item it)) it items (emit_items emit items) s (ground arith) h.0
        (λ t. emit_items-Sent emit items t h.1))
]

module _ (again : Emit) (more : List TranscriptItem) where
  -- What both runs have sent, when the second ends well.
  abbrev Resumed : List TranscriptItem → Stream → Stream → Type 0
  Resumed items s t = Sent (items ++ more) s (emit_items again (items ++ more) t)

  -- the second run passes over what the first has sent
  passed_over :
      (it : TranscriptItem) (items : List TranscriptItem) (t : Stream)
      → it.seq ≤ t.cursor
      → emit_items again (it ∷ items) t ≡ emit_items again items t
  unfolding emit_items
  passed_over it items t le = ground arith

  skipped :
      (it : TranscriptItem) (items : List TranscriptItem) (s t : Stream)
      → leb it.seq s.cursor ≡ true
      → s.cursor ≤ t.cursor
      → Resumed items s t
      → Resumed (it ∷ items) s t
  skipped it items s t old le h done =
      let same = passed_over it (items ++ more) t (ground arith) in
      ap (λ r. r.1.sent) same
      ∙ h (sym (ap (λ r. r.0) same) ∙ done)
      ∙ ap (λ its. s.sent ++ map map_item its) (sym (after_old s.cursor it (items ++ more) old))

  Resumed-emitted :
      (failed : Option Error) (it : TranscriptItem) (items : List TranscriptItem)
      (rest : Stream → Result (Unit {0}) × Stream) (s : Stream)
      → ltb s.cursor it.seq ≡ true
      → Ascending (it ∷ items ++ more)
      → ((t : Stream) → t.cursor ≤ (rest t).1.cursor)
      → ((t : Stream) → Resumed items t (rest t).1)
      → Resumed (it ∷ items) s (emitted failed it.seq (map_item it) rest s).1
  Resumed-emitted (some e) it items rest s new h mono ih =
      emit_items-Sent again (it ∷ items ++ more) s h
  Resumed-emitted none it items rest s new h mono ih =
      let t : Stream = record { cursor = it.seq; sent = s.sent ++ map_item it ∷ [] } in
      λ done.
        ap (λ r. r.1.sent) (passed_over it (items ++ more) (rest t).1 (mono t))
        ∙ ih t (sym (ap (λ r. r.0) (passed_over it (items ++ more) (rest t).1 (mono t))) ∙ done)
        ∙ after-above s.cursor it (items ++ more) s.sent new h.0

  emit_items-Resumed :
      (emit : Emit) (items : List TranscriptItem) (s : Stream)
      → Ascending (items ++ more)
      → Resumed items s (emit_items emit items s).1
  unfolding emit_items
  emit_items-Resumed emit [] s h = emit_items-Sent again more s h
  emit_items-Resumed emit (it ∷ items) s h = elim (Bool-cases (leb it.seq s.cursor)) [
    | inl old ↦ rw old (
        skipped it items s (emit_items emit items s).1 old (cursor_mono emit items s)
          (emit_items-Resumed emit items s h.1))
    | inr new ↦ rw new (
        Resumed-emitted (emit s.sent (map_item it)) it items (emit_items emit items) s
          (ground arith) h (cursor_mono emit items) (λ t. emit_items-Resumed emit items t h.1))
  ]

emitted-ext :
    (failed : Option Error) (n seq : ℕ) (event : Event)
    (rest rest' : Stream → Result (Unit {0}) × Stream) (s : Stream)
    → n ≤ seq
    → ((t : Stream) → n ≤ t.cursor → rest t ≡ rest' t)
    → emitted failed seq event rest s ≡ emitted failed seq event rest' s
emitted-ext (some e) n seq event rest rest' s le same = refl
emitted-ext none n seq event rest rest' s le same =
    same (record { cursor = seq; sent = s.sent ++ event ∷ [] }) le

below : (n seq cursor : ℕ) → ltb n seq ≡ false → n ≤ cursor → leb seq cursor ≡ true
below n seq cursor old le = ground arith

-- The loop passes over what the snapshot leaves out.
emit_items-after :
    (emit : Emit) (n : ℕ) (items : List TranscriptItem) (s : Stream)
    → n ≤ s.cursor
    → emit_items emit (after n items) s ≡ emit_items emit items s
unfolding emit_items
emit_items-after emit n [] s le = refl
emit_items-after emit n (it ∷ items) s le = elim (Bool-cases (ltb n it.seq)) [
  | inl new ↦ rw new (elim (Bool-cases (leb it.seq s.cursor)) [
    | inl old ↦ rw old (emit_items-after emit n items s le)
    | inr fresh ↦ rw fresh (
        emitted-ext (emit s.sent (map_item it)) n it.seq (map_item it) _ _ s (ground arith)
          (λ t le'. emit_items-after emit n items t le'))
  ])
  | inr old ↦ rw (old, below n it.seq s.cursor old le) (emit_items-after emit n items s le)
]

module _ (emit again : Emit) (items more : List TranscriptItem) (s : Stream) where
  -- the reader after a first call of `emitNew` that read the items
  abbrev pub polled : Stream
  polled = (emit_items emit (after s.cursor items) s).1

  -- A reader is sent the items after its cursor, in a call that may fail at any event. When a later
  -- call, on a transcript that has grown meanwhile, ends well, then the two together have sent
  -- exactly the events of the items of the transcript with numbers above the first cursor, each
  -- once and in order. The numbers of the items rise.
  pub emit_items-resume :
      Ascending (items ++ more)
      → (emit_items again (after polled.cursor (items ++ more)) polled).0 ≡ ok tt
      → (emit_items again (after polled.cursor (items ++ more)) polled).1.sent
        ≡ s.sent ++ events_after s.cursor (items ++ more)
  emit_items-resume h =
      rw (emit_items-after again polled.cursor (items ++ more) polled (omega arith)) (
        subst (λ r. Resumed again more items s r.1)
          (sym (emit_items-after emit s.cursor items s (omega arith)))
          (emit_items-Resumed again more emit items s h))
