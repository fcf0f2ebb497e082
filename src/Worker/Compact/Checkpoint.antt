-- ===== src/Worker/Compact/Checkpoint.antt =====
-- compact.go and worker.go: what the model sees of a thread that ends in a checkpoint.
use buat_postingan.Base.{
  ℕ, suc, ◌+◌, ◌≤◌, Bool, true, false, ◌≡◌, refl, ap, ◌∙◌, Option, none, some, List, [], ◌∷◌, ◌++◌,
  ltb, ◌&&◌, not, str_eq, length, arith, if◌then◌else◌,
}
use buat_postingan.Domain.{TranscriptItem}
use buat_postingan.Domain.ItemType
use buat_postingan.Worker.{Deps}
use buat_postingan.Worker.Messages.{
  last_compact, is_compacted, uncompacted, through_seq_of, summary_of, messages_of, build_messages,
}
use buat_postingan.Worker.Compact.{greatest}

-- Whether the items are all before the item, by their numbers.
unfoldable pub all_before : List TranscriptItem → TranscriptItem → Bool
all_before [] it = true
all_before (o ∷ old) it = ltb o.seq it.seq && all_before old it

-- Those of the items that are no checkpoints and have numbers above those of all the old ones.
unfoldable pub later_than : List TranscriptItem → List TranscriptItem → List TranscriptItem
unfolding all_before
later_than old [] = []
later_than old (it ∷ items) =
    let rest = later_than old items in
    if all_before old it && not (str_eq it.item_type ItemType.context_compacted)
    then it ∷ rest
    else rest

last_compact-append :
    (i : ℕ) (items : List TranscriptItem) (cp : TranscriptItem)
    (found : Option (ℕ × TranscriptItem))
    → str_eq cp.item_type ItemType.context_compacted ≡ true
    → last_compact i (items ++ cp ∷ []) found ≡ some (i + length items, cp)
unfolding last_compact
last_compact-append i [] cp found e = ground arith
last_compact-append i (it ∷ items) cp found e =
    last_compact-append (suc i) items cp
      (if str_eq it.item_type ItemType.context_compacted then some (i, it) else found) e
    ∙ ap (λ n. some (n, cp)) (omega arith)

-- What a checkpoint through a number passes over among the items before it.
all_before-greatest :
    (old : List TranscriptItem) (it : TranscriptItem)
    → all_before old it && ltb 0 it.seq ≡ ltb (greatest old) it.seq
unfolding all_before greatest
all_before-greatest [] it = ground arith
all_before-greatest (o ∷ old) it = ground (arith, all_before-greatest old it)

checkpoint_passed :
    (k i : ℕ) (cp : TranscriptItem) (n : ℕ)
    → str_eq cp.item_type ItemType.context_compacted ≡ true
    → is_compacted (k, cp) n i cp ≡ true
unfolding is_compacted
checkpoint_passed k i cp n e = rw e refl

all_before-above :
    (old : List TranscriptItem) (it : TranscriptItem)
    → ltb 0 (greatest old) ≡ true
    → all_before old it ≡ ltb (greatest old) it.seq
unfolding all_before greatest
all_before-above [] it e = ground arith
all_before-above (o ∷ old) it e = ground (arith, all_before-greatest old it)

is_compacted-later :
    (old : List TranscriptItem) (k i : ℕ) (cp it : TranscriptItem)
    → ltb 0 (greatest old) ≡ true
    → ltb i k ≡ true
    → is_compacted (k, cp) (greatest old) i it
      ≡ not (all_before old it && not (str_eq it.item_type ItemType.context_compacted))
unfolding is_compacted
is_compacted-later old k i cp it some_old room =
    ground (arith, some_old, room, all_before-above old it some_old)

-- the item is passed over, and those after it too
if-not : {A : Type 0} (b : Bool) (x y : A) → (if not b then x else y) ≡ (if b then y else x)
if-not true x y = refl
if-not false x y = refl

uncompacted-later :
    (old : List TranscriptItem) (k i : ℕ) (items : List TranscriptItem) (cp : TranscriptItem)
    → str_eq cp.item_type ItemType.context_compacted ≡ true
    → ltb 0 (greatest old) ≡ true
    → i + length items ≤ k
    → uncompacted (k, cp) (greatest old) i (items ++ cp ∷ []) ≡ later_than old items
unfolding uncompacted later_than
uncompacted-later old k i [] cp e some_old room =
    ground (arith, checkpoint_passed k i cp (greatest old) e)
uncompacted-later old k i (it ∷ items) cp e some_old room =
    rw (is_compacted-later old k i cp it some_old (ground arith)) (
      rw (uncompacted-later old k (suc i) items cp e some_old (omega arith)) (
        if-not (all_before old it && not (str_eq it.item_type ItemType.context_compacted))
          (later_than old items) (it ∷ later_than old items)))

-- A thread that ends in a checkpoint through the last number of the old items reads as the summary
-- of the checkpoint and the items that come after all the old ones.
pub build_messages-later :
    (deps : Deps) (old items : List TranscriptItem) (cp : TranscriptItem)
    → str_eq cp.item_type ItemType.context_compacted ≡ true
    → through_seq_of cp ≡ greatest old
    → ltb 0 (greatest old) ≡ true
    → build_messages deps (items ++ cp ∷ [])
      ≡ summary_of cp ∷ messages_of deps (later_than old items) 0
unfolding build_messages
build_messages-later deps old items cp e through some_old =
    rw (last_compact-append 0 items cp none e) (
      rw through
        (rw (uncompacted-later old (0 + length items) 0 items cp e some_old (omega arith)) refl))
