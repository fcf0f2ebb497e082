-- ===== src/Jsonl/Store/Conversations.antt =====
-- store.go: the session index as a map from threads to conversations.
use buat_postingan.Base.{
  ℕ, suc, String, ◌≡◌, refl, ◌∙◌, sym, ap, subst, inl, inr, false, Bool-cases, Option, none, some,
  List, [], ◌∷◌, ◌++◌, arith, str_eq, eq_iff, is_empty, if◌then◌else◌,
}
use mathlib.Core.Path.{ap₂}
use buat_postingan.Apperr.{Error}
use buat_postingan.Exec.{Result, ok, err}
use buat_postingan.Domain.{ConversationMeta, title_pending, conversation_active}
use buat_postingan.Domain.Ids.{
  new_thread_id, new_turn_id, new_title, new_thread_id_idem, new_turn_id_idem, new_title_idem,
}
use buat_postingan.Jsonl.Rows.{
  SessionMetaRow, row_meta, map_result, checked, text_or, meta_to_row, row_to_meta,
}
use buat_postingan.Jsonl.Rows.RoundTrip.{IsStorable, kept_meta, row_to_meta-meta_to_row}
use buat_postingan.Jsonl.Disk.{Os, World, index_append}
use buat_postingan.Jsonl.Store.{last_row, conversation_or, stamped_meta, append_conversation_meta}

-- The conversation that is found after `m` was written at the time `at`.
abbrev pub stored_meta : ℕ → ConversationMeta → ConversationMeta
stored_meta at m = kept_meta (stamped_meta at m)

-- The conversation of each thread, as `ResolveConversation` finds it.
abbrev pub conversation : World → String → Option ConversationMeta
conversation w tid = last_row tid w.index none

last_row-append :
    (tid : String) (rows : List SessionMetaRow) (row : SessionMetaRow)
    (found : Option ConversationMeta)
    → last_row tid (rows ++ row ∷ []) found ≡ (
        if str_eq row.thread_id tid
        then conversation_or (row_to_meta row) (last_row tid rows found)
        else last_row tid rows found)
unfolding last_row
last_row-append tid [] row found = refl
last_row-append tid (r ∷ rows) row found = last_row-append tid rows row _

checked_title-storable :
    (o : Option String) (t : String) → checked new_title o ≡ some t → new_title t ≡ ok t
checked_title-storable none t h = cc
checked_title-storable (some raw) t h = ground (arith, new_title_idem raw t)

checked_turn-storable :
    (o : Option String) (t : String) → checked new_turn_id o ≡ some t → new_turn_id t ≡ ok t
checked_turn-storable none t h = cc
checked_turn-storable (some raw) t h = ground (arith, new_turn_id_idem raw t)

text_or-ne-empty : (s d : String) → is_empty d ≡ false → is_empty (text_or s d) ≡ false
text_or-ne-empty s d h = ground arith

row_meta-IsStorable :
    (row : SessionMetaRow) (tid : String)
    → new_thread_id row.thread_id ≡ ok tid
    → IsStorable (row_meta row tid)
unfolding row_to_meta
row_meta-IsStorable row tid h = record {
  thread = new_thread_id_idem row.thread_id tid h;
  source = text_or-ne-empty row.title_source title_pending refl;
  state = text_or-ne-empty row.status conversation_active refl;
  title = checked_title-storable row.title;
  turn = checked_turn-storable row.active_turn_id;
}

map_result-eq-ok :
    (f : String → ConversationMeta) (r : Result String) (m : ConversationMeta)
    → map_result f r ≡ ok m
    → (s : String) × (r ≡ ok s) × (f s ≡ m)
map_result-eq-ok f (ok s) m h = (s, refl, cc)
map_result-eq-ok f (err e) m h = cc

-- A row that converts gives a storable conversation.
row_to_meta-IsStorable :
    (row : SessionMetaRow) (m : ConversationMeta) → row_to_meta row ≡ ok m → IsStorable m
unfolding row_to_meta
row_to_meta-IsStorable row m h =
    let (tid, parsed, same) = map_result-eq-ok (row_meta row) (new_thread_id row.thread_id) m h in
    subst IsStorable same (row_meta-IsStorable row tid parsed)

-- The thread of a row that is looked up by a proper thread id
row_to_meta-thread_id :
    (row : SessionMetaRow) (m : ConversationMeta) (tid : String)
    → row_to_meta row ≡ ok m
    → row.thread_id ≡ tid
    → new_thread_id tid ≡ ok tid
    → m.thread_id ≡ tid
unfolding row_to_meta
row_to_meta-thread_id row m tid h e proper =
    let (t, parsed, same) = map_result-eq-ok (row_meta row) (new_thread_id row.thread_id) m h in
    sym (ap (λ (c : ConversationMeta). c.thread_id) same) ∙ cc (parsed, proper, ap new_thread_id e)

-- What is found of a thread with a proper id is storable, and is the thread's.
abbrev Found : String → Option ConversationMeta → Type 0
Found tid none = Unit
Found tid (some m) = IsStorable m × (m.thread_id ≡ tid)

Found-conversation_or :
    (tid : String) (row : SessionMetaRow) (r : Result ConversationMeta)
    (found : Option ConversationMeta)
    → row_to_meta row ≡ r
    → row.thread_id ≡ tid
    → new_thread_id tid ≡ ok tid
    → Found tid found
    → Found tid (conversation_or r found)
Found-conversation_or tid row (ok m) found h e proper old =
    (row_to_meta-IsStorable row m h, row_to_meta-thread_id row m tid h e proper)
Found-conversation_or tid row (err x) found h e proper old = old

Found-last_row :
    (tid : String) (rows : List SessionMetaRow) (found : Option ConversationMeta)
    → new_thread_id tid ≡ ok tid
    → Found tid found
    → Found tid (last_row tid rows found)
unfolding last_row
Found-last_row tid [] found proper old = old
Found-last_row tid (row ∷ rows) found proper old = elim (Bool-cases (str_eq row.thread_id tid)) [
  | inl e ↦ rw e (
      Found-last_row tid rows _ proper
        (Found-conversation_or tid row (row_to_meta row) found refl ((eq_iff _ _).0 e) proper old))
  | inr e ↦ rw e (Found-last_row tid rows found proper old)
]

stamped_meta-IsStorable :
    (at : ℕ) (m : ConversationMeta) → IsStorable m → IsStorable (stamped_meta at m)
unfolding stamped_meta
stamped_meta-IsStorable at m h = record {
  thread = h.thread;
  source = rw (h.source, h.source);
  state = rw (h.state, h.state);
  title = h.title;
  turn = h.turn;
}

thread_id-ne-empty : (tid : String) → new_thread_id tid ≡ ok tid → is_empty tid ≡ false
unfolding new_thread_id
thread_id-ne-empty tid h = ground arith

last_row-stored :
    (tid path : String) (rows : List SessionMetaRow) (m : ConversationMeta)
    → IsStorable m
    → last_row tid (rows ++ meta_to_row m path ∷ []) none
      ≡ (if str_eq m.thread_id tid then some (kept_meta m) else last_row tid rows none)
unfolding meta_to_row
last_row-stored tid path rows m h =
    last_row-append tid rows (meta_to_row m path) none
    ∙ ap
        (λ r.
          if str_eq m.thread_id tid
          then conversation_or r (last_row tid rows none)
          else last_row tid rows none)
        (row_to_meta-meta_to_row m path h)

module _ (os : Os) (w : World) (m : ConversationMeta) where
  -- After `AppendConversationMeta` has written a storable conversation, its thread has that
  -- conversation, stamped with the time of the call and with its times as float64 seconds give
  -- them back, and every other thread has the one it had.
  pub append-conversation :
      (tid : String)
      → IsStorable m
      → (append_conversation_meta os m w).0 ≡ ok tt
      → conversation (append_conversation_meta os m w).1 tid ≡ (
          if str_eq m.thread_id tid
          then some (stored_meta (os.clock w.tick) m)
          else conversation w tid)
  unfolding append_conversation_meta stamped_meta
  append-conversation tid h done = elim (Bool-cases (os.fails (suc w.tick) index_append)) [
    | inl failed ↦ ground (arith, thread_id-ne-empty m.thread_id h.thread)
    | inr written ↦
        rw (thread_id-ne-empty m.thread_id h.thread, written)
          (last_row-stored tid (os.jsonl_path m.thread_id) w.index
            (stamped_meta (os.clock w.tick) m) (stamped_meta-IsStorable (os.clock w.tick) m h))
  ]

  -- An error of `AppendConversationMeta` leaves the index as it was.
  append-conversation_failed :
      (tid : String) (e : Error)
      → (append_conversation_meta os m w).0 ≡ err e
      → (append_conversation_meta os m w).1.index ≡ w.index
  unfolding append_conversation_meta
  append-conversation_failed tid e failed = ground arith

-- A conversation that is found under a proper thread id is storable, and is that thread's.
pub conversation-Found :
    (w : World) (tid : String) (m : ConversationMeta)
    → new_thread_id tid ≡ ok tid
    → conversation w tid ≡ some m
    → IsStorable m × (m.thread_id ≡ tid)
conversation-Found w tid m proper found =
    subst (Found tid) found (Found-last_row tid w.index none proper tt)

-- An operation that comes down to writing the conversation `m` of the thread `tid` updates the
-- conversations at `tid`.
pub writes-conversation :
    (os : Os) (w v : World) (m : ConversationMeta) (tid : String) (r : Result (Unit {0}) × World)
    → r ≡ append_conversation_meta os m v
    → v.index ≡ w.index
    → IsStorable m
    → m.thread_id ≡ tid
    → r.0 ≡ ok tt
    → (j : String)
    → conversation r.1 j
      ≡ (if str_eq tid j then some (stored_meta (os.clock v.tick) m) else conversation w j)
writes-conversation os w v m tid r q same storable thread done j =
    ap (λ (x : Result (Unit {0}) × World). conversation x.1 j) q
    ∙ append-conversation os v m j storable (ap (λ x. x.0) (sym q) ∙ done)
    ∙ ap₂
        (λ t (index : List SessionMetaRow).
          if str_eq t j then some (stored_meta (os.clock v.tick) m) else last_row j index none)
        thread same
