-- ===== src/Worker/Compact/Context.antt =====
-- compact.go: the checkpoint that `maybeCompact` appends, and what the model then sees.
use buat_postingan.Base.{
  ℕ, suc, ◌<◌, String, true, false, ◌≡◌, refl, sym, ap, ◌∙◌, Option, none, some, List, [], ◌∷◌,
  ◌++◌, ◌⊎◌, inl, inr, Bool-cases, ltb, All, trim_space, arith, eq_iff,
}
use buat_postingan.Config.Effort.{one_of}
use buat_postingan.Exec.{Result, ok, err, >>=-eq-ok, ok-injective}
use buat_postingan.Json.{as_nat, Fields, field_of}
use buat_postingan.Domain.{TranscriptItem, TurnJob}
use buat_postingan.Domain.ItemType
use buat_postingan.Jsonl.Disk.{Os, World}
use buat_postingan.Jsonl.Store
use buat_postingan.Worker.{Deps, payload_of, ChatReply, WorkerConfig}
use buat_postingan.Worker.Items.{append, append_id, chosen_id}
use buat_postingan.Worker.Agent.{Chat, maybe_compact, planned, with_checkpoint}
use buat_postingan.Worker.Messages.{through_seq_of, summary_of, messages_of, build_messages}
use buat_postingan.Worker.Compact.{
  Plan, plan_compact, old_items, greatest, items_in, no_items, kept_summary, compact_payload,
  compact_messages,
}
use buat_postingan.Worker.Compact.Checkpoint.{later_than, build_messages-later}

abbrev Positive : TranscriptItem → Type 0
Positive it = 0 < it.seq

items_in-Positive :
    (turns : List String) (items : List TranscriptItem)
    → All Positive items
    → All Positive (items_in turns items)
unfolding items_in
items_in-Positive turns [] h = tt
items_in-Positive turns (it ∷ items) h = elim (Bool-cases (one_of turns it.turn_id)) [
  | inl e ↦ rw e ((h.0, items_in-Positive turns items h.1))
  | inr e ↦ rw e (items_in-Positive turns items h.1)
]

old_items-Positive :
    (cfg : WorkerConfig) (items : List TranscriptItem)
    → All Positive items
    → All Positive (old_items cfg items)
unfolding old_items
old_items-Positive cfg items h = items_in-Positive _ items h

greatest_above_zero :
    (items : List TranscriptItem)
    → no_items items ≡ false
    → All Positive items
    → ltb 0 (greatest items) ≡ true
unfolding greatest
greatest_above_zero [] e h = cc
greatest_above_zero (it ∷ items) e h = ground (arith, h.0)

plan-old :
    (deps : Deps) (items : List TranscriptItem) (plan : Plan)
    → plan_compact deps items ≡ some plan
    → (no_items (old_items deps.config items) ≡ false)
      × (plan.through_seq ≡ greatest (old_items deps.config items))
unfolding plan_compact
plan-old deps items plan e = (ground arith, ground arith)

append_item-payload :
    (os : Os) (tid : String) (item it : TranscriptItem) (w : World)
    → (Store.append_item os tid item w).0 ≡ ok it
    → (it.payload ≡ item.payload) × (it.item_type ≡ item.item_type)
unfolding Store.append_item Store.append_numbered Store.next_seq
append_item-payload os tid item it w done = (ground arith, ground arith)

append-payload :
    (os : Os) (job : TurnJob) (typ : String) (fields : Fields) (it : TranscriptItem) (w : World)
    → (append os job typ fields w).0 ≡ ok it
    → (it.payload ≡ payload_of fields) × (it.item_type ≡ typ)
unfolding append append_id
append-payload os job typ fields it w done =
    let (id, chose, rest) = >>=-eq-ok (chosen_id os "") _ w it done in
    let v = (chosen_id os "" w).1 in
    let stamped : TranscriptItem = record {
      seq = 0;
      id = id;
      thread_id = job.thread_id;
      turn_id = job.turn_id;
      item_type = typ;
      payload = payload_of fields;
      at = os.clock v.tick;
    } in
    append_item-payload os job.thread_id stamped it (record v { tick = suc v.tick })
      (sym (ap (λ p. p.0) rest) ∙ done)

-- The items with a checkpoint after them, which says through which number it goes.
pub record IsCheckpointed (items items' : List TranscriptItem) (cp : TranscriptItem) (n : ℕ)
    : Type 0 where
  pub appended : items' ≡ items ++ cp ∷ []
  pub typed : cp.item_type ≡ ItemType.context_compacted
  pub through : through_seq_of cp ≡ n

module _ (os : Os) (deps : Deps) (job : TurnJob) (chat : Chat)
    (items items' : List TranscriptItem) where
  with_checkpoint-IsCheckpointed :
      (plan : Plan) (reply : ChatReply) (v : World) (r : Result TranscriptItem)
      → (append os job ItemType.context_compacted
          (compact_payload deps plan (kept_summary deps (some reply) plan.excerpt))
          v).0
        ≡ r
      → with_checkpoint os deps job items r ≡ items'
      → (items' ≡ items) ⊎ ((cp : TranscriptItem) × IsCheckpointed items items' cp plan.through_seq)
  unfolding as_nat field_of
  with_checkpoint-IsCheckpointed plan reply v (ok cp) wrote same =
      let (payload, typed) =
        append-payload os job ItemType.context_compacted
          (compact_payload deps plan (kept_summary deps (some reply) plan.excerpt)) cp v wrote in
      inr (
        cp,
        record {
          appended = sym same;
          typed = typed;
          through = ap (λ p. as_nat (p "compacted_through_seq")) payload;
        },
      )
  with_checkpoint-IsCheckpointed plan reply v (err e) failed same = inl (sym same)

  planned-IsCheckpointed :
      (found : Option Plan) (w : World)
      → (planned os deps job chat items found w).0 ≡ ok items'
      → (items' ≡ items)
        ⊎ ((plan : Plan) × (cp : TranscriptItem) × (found ≡ some plan)
            × IsCheckpointed items items' cp plan.through_seq)
  planned-IsCheckpointed none w done = inl (sym (ok-injective items items' done))
  planned-IsCheckpointed (some plan) w done =
      let asked = compact_messages deps plan.excerpt in
      let reply = chat w.tick asked false (trim_space job.provider_id) in
      let v : World = record w { tick = suc w.tick } in
      elim (with_checkpoint-IsCheckpointed plan reply v
        (append os job ItemType.context_compacted
          (compact_payload deps plan (kept_summary deps (some reply) plan.excerpt)) v).0
        refl (ok-injective _ items' done)) [
          | inl same ↦ inl same
          | inr (cp, h) ↦ inr (plan, cp, refl, h)
        ]

  -- When the items of a thread have numbers above 0 and `maybeCompact` answers, the model sees
  -- either the items as they were or, after a plan to compact, the summary of a checkpoint and then
  -- exactly the items that are no checkpoints and come after all those of the older turns.
  pub maybe_compact-later :
      (w : World)
      → All Positive items
      → (maybe_compact os deps job chat items w).0 ≡ ok items'
      → (items' ≡ items)
        ⊎ ((plan : Plan) × (cp : TranscriptItem) × (plan_compact deps items ≡ some plan)
            × IsCheckpointed items items' cp plan.through_seq
            × (build_messages deps items'
                ≡ summary_of cp
                  ∷ messages_of deps (later_than (old_items deps.config items) items) 0))
  unfolding maybe_compact
  maybe_compact-later w h done = elim (planned-IsCheckpointed (plan_compact deps items) w done) [
    | inl same ↦ inl same
    | inr (plan, cp, found, c) ↦
        let (some_old, through) = plan-old deps items plan found in
        inr (
          plan,
          cp,
          found,
          c,
          ap (build_messages deps) c.appended
              ∙ build_messages-later deps (old_items deps.config items) items cp
                  ((eq_iff cp.item_type ItemType.context_compacted).1 c.typed) (c.through ∙ through)
                  (greatest_above_zero (old_items deps.config items) some_old
                    (old_items-Positive deps.config items h)),
        )
  ]
