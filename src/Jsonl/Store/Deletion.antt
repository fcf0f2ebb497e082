-- ===== src/Jsonl/Store/Deletion.antt =====
-- store.go: `SoftDeleteThread`.
use buat_postingan.Base.{
  ℕ, suc, String, ◌≡◌, ◌≢◌, refl, ap, ◌∙◌, inl, inr, false, Bool-cases, Option-cases, none, some,
  List, [], ◌∷◌, arith, str_eq, eq_refl, if◌then◌else◌,
}
use buat_postingan.Apperr.{not_found, new}
use buat_postingan.Exec.{ok, err}
use buat_postingan.Domain.{ConversationMeta}
use buat_postingan.Domain.Ids.{new_thread_id}
use buat_postingan.Jsonl.Rows.RoundTrip.{IsStorable}
use buat_postingan.Jsonl.Disk.{Os, SameFiles, LockFile, World, index_read, lock_stat, flag_list}
use buat_postingan.Jsonl.Store.{
  stamped_meta, resolve_conversation, append_conversation_meta, get_thread, remove_flags,
  soft_delete_thread, erase_files, bury, last_row, tombstone,
}
use buat_postingan.Jsonl.Store.Conversations.{
  conversation, stored_meta, conversation-Found, writes-conversation,
}

module _ (os : Os) (tid : String) where
  -- While the lock file of a thread exists, `SoftDeleteThread` fails, known or not and whatever
  -- calls fail, and leaves every file and the queue as they were.
  pub soft_delete_thread-locked :
      (w : World)
      → w.locks tid ≢ LockFile.absent
      → ((soft_delete_thread os tid w).0 ≢ ok tt) × SameFiles w (soft_delete_thread os tid w).1
  unfolding soft_delete_thread resolve_conversation
  soft_delete_thread-locked w locked = (
    ground arith,
    record {
      index = ground arith;
      lines = ground arith;
      seqs = ground arith;
      locks = ground arith;
      flags = ground arith;
      queue = ground arith;
    },
  )

  remove_flags-index :
      (turns left : List String) (w : World)
      → ((remove_flags os tid left turns w).0 ≡ ok tt)
        × ((remove_flags os tid left turns w).1.index ≡ w.index)
  unfolding remove_flags
  remove_flags-index [] left w = (refl, refl)
  remove_flags-index (turn ∷ turns) left w = remove_flags-index turns _ _

  erase_files-index :
      (w : World) → ((erase_files os tid w).0 ≡ ok tt) × ((erase_files os tid w).1.index ≡ w.index)
  unfolding erase_files
  erase_files-index w = elim (Bool-cases (os.fails (suc (suc w.tick)) flag_list)) [
    | inl unlisted ↦ rw unlisted (refl, refl)
    | inr listed ↦ rw listed (remove_flags-index (w.flags tid) [] _)
  ]

  bury-index :
      (w : World) (prev : ConversationMeta)
      → (w' : World) × (w'.index ≡ w.index)
        × (bury os tid prev w
            ≡ append_conversation_meta os
                (tombstone prev (os.clock w'.tick))
                (record w' { tick = suc w'.tick }))
  unfolding bury
  bury-index w prev =
      ((erase_files os tid w).1, (erase_files-index w).1, rw ((erase_files-index w).0))

  tombstone-IsStorable :
      (prev : ConversationMeta) (at : ℕ) → IsStorable prev → IsStorable (tombstone prev at)
  tombstone-IsStorable prev at h = record {
    thread = h.thread;
    source = h.source;
    state = refl;
    title = h.title;
    turn = λ s e. cc;
  }

  deleted-gone :
      (v : World) (n at at' : ℕ) (prev : ConversationMeta)
      → conversation v tid ≡ some (stored_meta at (tombstone prev at'))
      → os.fails v.tick index_read ≡ false
      → (get_thread os tid n v).0 ≡ err (new 404 not_found "thread not found")
  unfolding get_thread resolve_conversation stamped_meta
  deleted-gone v n at at' prev found read = rw (read, found)

  -- a deletion that went through passed each of its tests
  deleting :
      (w : World)
      → (soft_delete_thread os tid w).0 ≡ ok tt
      → (os.fails w.tick index_read ≡ false)
        × (os.fails (suc w.tick) lock_stat ≡ false)
        × (w.locks tid ≡ LockFile.absent)
        × (conversation w tid ≢ none)
  unfolding soft_delete_thread resolve_conversation
  deleting w done = ground arith

  buried :
      (w : World) (prev : ConversationMeta)
      → conversation w tid ≡ some prev
      → (soft_delete_thread os tid w).0 ≡ ok tt
      → soft_delete_thread os tid w ≡ bury os tid prev (record w { tick = suc (suc w.tick) })
  unfolding soft_delete_thread resolve_conversation
  buried w prev found done =
      let (read, stat, free, known) = deleting w done in rw (read, found, stat, free)

  deletion :
      (w : World) (prev : ConversationMeta)
      → new_thread_id tid ≡ ok tid
      → conversation w tid ≡ some prev
      → (soft_delete_thread os tid w).0 ≡ ok tt
      → (at at' : ℕ) × ((j : String)
          → conversation (soft_delete_thread os tid w).1 j ≡ (
              if str_eq tid j
              then some (stored_meta at (tombstone prev at'))
              else conversation w j))
  deletion w prev proper found done =
      let (w', same, q) = bury-index (record w { tick = suc (suc w.tick) }) prev in
      let (storable, thread) = conversation-Found w tid prev proper found in
      let at' : ℕ = os.clock w'.tick in
      (
        os.clock (suc w'.tick),
        at',
        writes-conversation os w _ (tombstone prev at') tid _ (buried w prev found done ∙ q) same
            (tombstone-IsStorable prev at' storable) thread done,
      )

  -- After `SoftDeleteThread` has succeeded, as long as the index stays as it is and can be read, the
  -- thread is not found, and every other thread has the conversation that it had.
  pub soft_delete_thread-gone :
      (w v : World) (n : ℕ)
      → new_thread_id tid ≡ ok tid
      → (soft_delete_thread os tid w).0 ≡ ok tt
      → v.index ≡ (soft_delete_thread os tid w).1.index
      → os.fails v.tick index_read ≡ false
      → ((get_thread os tid n v).0 ≡ err (new 404 not_found "thread not found"))
        × ((j : String) → str_eq tid j ≡ false → conversation v j ≡ conversation w j)
  soft_delete_thread-gone w v n proper done same read = elim (Option-cases (conversation w tid)) [
    | inl missing ↦ absurd ((deleting w done).3 missing)
    | inr (prev, found) ↦
        let (at, at', after) = deletion w prev proper found done in
        (
          deleted-gone v n at at' prev
              (ap (λ index. last_row tid index none) same ∙ after tid ∙ rw (eq_refl tid)) read,
          λ j other. ap (λ index. last_row j index none) same ∙ after j ∙ rw other,
        )
  ]
