-- ===== src/Worker/Messages/Pictures.antt =====
-- worker.go and vision.go: the images in the messages for the model.
use buat_postingan.Base.{
  ℕ, ◌+◌, ◌≤◌, String, ◌≡◌, refl, Option, none, some, List, [], ◌∷◌, ◌++◌, str_eq, arith,
  Bool-cases, inl, inr,
}
use buat_postingan.Json.{Json, obj, field_of}
use buat_postingan.Domain.{TranscriptItem}
use buat_postingan.Domain.ItemType
use buat_postingan.Worker.{Deps}
use buat_postingan.Worker.Content.{user_llm_content}
use buat_postingan.Worker.Content.Limits.{images_in_content, IsLimited, user_llm_content-IsLimited}
use buat_postingan.Worker.Messages.{
  message, message_of_item, messages_of, messages_after, build_messages, last_compact, uncompacted,
  through_seq_of,
}

-- the images in the content of a field, if there is one
abbrev pub images_in_field : Option Json → ℕ
images_in_field none = 0
images_in_field (some v) = images_in_content v

unfoldable pub images_in_message : Json → ℕ
unfolding field_of
images_in_message (obj fs) = images_in_field (field_of "content" fs)
images_in_message _ = 0

unfoldable pub images_in : List Json → ℕ
unfolding images_in_message
images_in [] = 0
images_in (m ∷ ms) = images_in_message m + images_in ms

images_in-append : (ms ns : List Json) → images_in (ms ++ ns) ≡ images_in ms + images_in ns
unfolding images_in
images_in-append [] ns = omega arith
images_in-append (m ∷ ms) ns = omega (arith, images_in-append ms ns)

images_in_message-message :
    (role : String) (content : Json)
    → images_in_message (message role content) ≡ images_in_content content
unfolding images_in_message field_of
images_in_message-message role content = refl

-- Messages whose images are counted in a total that stays below the limit.
pub record AreLimited (before : ℕ) (r : List Json × ℕ) : Type 0 where
  pub total : r.1 ≡ before + images_in r.0
  pub few_in_all : r.1 ≤ 8

module _ (deps : Deps) where
  user-AreLimited :
      (r : Json × ℕ) (before : ℕ)
      → IsLimited before r
      → AreLimited before (message "user" r.0 ∷ [], r.1)
  unfolding images_in images_in_message field_of
  user-AreLimited r before h = record { total = omega (arith, h.total); few_in_all = h.few_in_all }

  message_of_item-AreLimited :
      (it : TranscriptItem) (before : ℕ)
      → before ≤ 8
      → AreLimited before (message_of_item deps it before)
  unfolding message_of_item images_in images_in_message field_of
  message_of_item-AreLimited it before room =
      elim (Bool-cases (str_eq it.item_type ItemType.user_message)) [
        | inl user ↦ rw user (
            user-AreLimited (user_llm_content deps it.payload before) before
              (user_llm_content-IsLimited deps it.payload before room))
        | inr other ↦ rw other (record { total = ground arith; few_in_all = ground arith })
      ]

  messages_of-limited :
      (items : List TranscriptItem) (before : ℕ)
      → before ≤ 8
      → before + images_in (messages_of deps items before) ≤ 8
  unfolding messages_of images_in
  messages_of-limited [] before room = omega arith
  messages_of-limited (it ∷ items) before room =
      let r = message_of_item deps it before in
      let h = message_of_item-AreLimited it before room in
      omega (
        arith,
        h.total,
        images_in-append r.0 (messages_of deps items r.1),
        messages_of-limited items r.1 h.few_in_all,
      )

  after-limited :
      (items : List TranscriptItem) (found : Option (ℕ × TranscriptItem))
      → images_in (messages_after deps items found) ≤ 8
  unfolding images_in images_in_message field_of
  after-limited items none = omega (arith, messages_of-limited items 0 (omega arith))
  after-limited items (some compact) = omega (
    arith,
    messages_of-limited (uncompacted compact (through_seq_of compact.1) 0 items) 0 (omega arith),
  )

  -- The messages that are made of the items of a thread have at most eight images in all, however
  -- many the items refer to.
  pub images_in-build_messages :
      (items : List TranscriptItem) → images_in (build_messages deps items) ≤ 8
  unfolding build_messages
  images_in-build_messages items = after-limited items (last_compact 0 items none)
