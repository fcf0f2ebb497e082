-- ===== src/Tests/Context.antt =====
-- What the model sees of a thread, and the title of a conversation.
use buat_postingan.Base.{
  ℕ, zero, suc, ◌≤◌, ◌++◌, String, ◌≡◌, refl, ◌⊎◌, some, List, [], ◌∷◌, arith, trim_space,
}
use Prim.Native.String.{◌++◌ as append_text}
use buat_postingan.Config.Effort.{one_of}
use buat_postingan.Exec.{ok}
use buat_postingan.Apperr.{plain}
use buat_postingan.Json.{text, null, Payload, field, end, field_of}
use buat_postingan.Domain.{TranscriptItem}
use buat_postingan.Domain.Ids.{new_item_id, new_title, rune_count}
use buat_postingan.Jsonl.Store
use buat_postingan.Worker.{Deps, payload_of, chat_error}
use buat_postingan.Worker.Items.{append, append_id}
use buat_postingan.Worker.Texts.{clamp_runes, take_runes, byte_length, join}
use buat_postingan.Worker.Agent.{maybe_compact}
use buat_postingan.Worker.Messages.{build_messages, summary_of, messages_of}
use buat_postingan.Worker.Messages.Pictures.{images_in, images_in-build_messages}
use buat_postingan.Worker.Compact.{
  Plan, plan_compact, old_items, compact_payload, estimate_item_tokens, item_chars, unique_turn_ids,
  turn_ids_from, first, items_in, greatest, build_compact_excerpt, excerpt_parts, excerpt_part,
  kept_summary, summarize_for_compact,
}
use buat_postingan.Worker.Compact.Checkpoint.{later_than}
use buat_postingan.Worker.Compact.Context.{IsCheckpointed, maybe_compact-later}
use buat_postingan.Worker.Title.{generate_title}
use buat_postingan.Worker.Title.Valid.{generate_title-Accepted}
use buat_postingan.Tests.Fixtures.{calm, world}
use buat_postingan.Tests.Worker.{deps, job, never}

abbrev doubled : ℕ → String → String
doubled zero s = s
doubled (suc n) s = doubled n (append_text s s)

-- arguments of 8192 bytes
abbrev wordy : Deps
wordy = record deps { marshal = λ v. doubled 13 "x" }

abbrev item : ℕ → String → String → Payload → TranscriptItem
item seq turn typ payload = record {
  seq = seq;
  id = "itm";
  thread_id = "thr_a";
  turn_id = turn;
  item_type = typ;
  payload = payload;
  at = 5;
}

-- An old turn with a call of a tool, and a recent one.
abbrev items : List TranscriptItem
items =
    item 1 "trn_0" "user_message" (payload_of (field "text" (text "hi") end))
    ∷ item 2 "trn_0" "tool_call" (payload_of (field "arguments" null end))
    ∷ item 3 "trn_2" "user_message" (payload_of (field "text" (text "hello") end))
    ∷ []

abbrev plan : Plan
plan = record { estimate = 2050; through_seq = 2; excerpt = "User: hi\nTool call: unknown" }

abbrev checkpoint : TranscriptItem
checkpoint = record {
  seq = 3;
  id = "token";
  thread_id = "thr_a";
  turn_id = "trn_2";
  item_type = "context_compacted";
  payload = payload_of (compact_payload wordy plan (plan.excerpt, "extractive"));
  at = 102000000000;
}

compacted : (maybe_compact calm wordy job never items world).0 ≡ ok (items ++ checkpoint ∷ [])
unfolding maybe_compact plan_compact append append_id Store.append_item Store.next_seq
    Store.append_numbered new_item_id trim_space clamp_runes take_runes byte_length join old_items
    estimate_item_tokens item_chars unique_turn_ids turn_ids_from first items_in greatest
    build_compact_excerpt excerpt_parts excerpt_part kept_summary summarize_for_compact one_of
    rune_count field_of
compacted = refl

maybe_compact-later_example :
    (items ++ checkpoint ∷ [] ≡ items)
    ⊎ ((plan : Plan) × (cp : TranscriptItem) × (plan_compact wordy items ≡ some plan)
        × IsCheckpointed items (items ++ checkpoint ∷ []) cp plan.through_seq
        × (build_messages wordy (items ++ checkpoint ∷ [])
            ≡ summary_of cp
              ∷ messages_of wordy (later_than (old_items wordy.config items) items) 0))
maybe_compact-later_example =
    maybe_compact-later calm wordy job never items (items ++ checkpoint ∷ []) world
      (omega arith, (omega arith, (omega arith, tt))) compacted

images_in-build_messages_example : images_in (build_messages wordy items) ≤ 8
images_in-build_messages_example = images_in-build_messages wordy items

generate_title-Accepted_example :
    (t : String) × (new_title (generate_title (chat_error (plain "down")) "hello") ≡ ok t)
generate_title-Accepted_example = generate_title-Accepted (chat_error (plain "down")) "hello"
