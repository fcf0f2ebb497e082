-- ===== src/Worker/Content/Limits.antt =====
-- vision.go: the images of a user message.
use buat_postingan.Base.{
  ℕ, suc, ◌+◌, ◌≤◌, String, Bool, false, ◌≡◌, refl, ap, Option, none, some, List, [], ◌∷◌, str_eq,
  is_empty, arith, if◌then◌else◌, Bool-cases, inl, inr, leb, ltb, ◌==◌,
}
use buat_postingan.Json.{
  Json, text, arr, obj, Elements, nil, cons, Fields, Payload, as_text, field_of,
}
use buat_postingan.Worker.{Attachment, Deps}
use buat_postingan.Worker.Content.{
  Images, with_note, with_image, add_image, add_images, image_id, rev_onto, elements_of, multimodal,
  content_of, user_llm_content, load_image, max_image_bytes, with_notes, skipped_notes,
  user_content_from_payload, llm_attachment_refs,
}

-- Whether a part of a content is an image.
unfoldable pub is_image : Json → Bool
unfolding field_of
is_image (obj fs) = str_eq (as_text (field_of "type" fs)) "image_url"
is_image _ = false

unfoldable pub image_count : Elements → ℕ
unfolding is_image
image_count nil = 0
image_count (cons v els) = (if is_image v then 1 else 0) + image_count els

-- the images in the content of a message
abbrev pub images_in_content : Json → ℕ
images_in_content (arr els) = image_count els
images_in_content _ = 0

unfoldable pub parts_count : List Json → ℕ
unfolding is_image
parts_count [] = 0
parts_count (v ∷ vs) = (if is_image v then 1 else 0) + parts_count vs

image_count-elements : (vs : List Json) → image_count (elements_of vs) ≡ parts_count vs
unfolding image_count parts_count elements_of
image_count-elements [] = refl
image_count-elements (v ∷ vs) =
    ap (λ n. (if is_image v then 1 else 0) + n) (image_count-elements vs)

parts_count-rev_onto :
    (xs ys : List Json) → parts_count (rev_onto xs ys) ≡ parts_count xs + parts_count ys
unfolding parts_count rev_onto
parts_count-rev_onto [] ys = omega arith
parts_count-rev_onto (x ∷ xs) ys = omega (arith, parts_count-rev_onto xs (x ∷ ys))

-- The parts of the loop are its images, at most four, and with those before them at most eight.
pub record IsCounted (before : ℕ) (s : Images) : Type 0 where
  pub parts : parts_count s.parts ≡ s.in_message
  pub total : s.total ≡ before + s.in_message
  pub few : s.in_message ≤ 4
  pub few_in_all : s.total ≤ 8

module _ (before : ℕ) where
  with_note-IsCounted :
      (id why : String) (s : Images) → IsCounted before s → IsCounted before (with_note id why s)
  with_note-IsCounted id why s h = record {
    parts = h.parts;
    total = h.total;
    few = h.few;
    few_in_all = h.few_in_all;
  }

  with_image-IsCounted :
      (id : String) (image : Option (String × Attachment)) (s : Images)
      → suc s.in_message ≤ 4
      → suc s.total ≤ 8
      → IsCounted before s
      → IsCounted before (with_image id image s)
  unfolding parts_count
  with_image-IsCounted id none s few few_in_all h = with_note-IsCounted id "unavailable" s h
  with_image-IsCounted id (some image) s few few_in_all h =
      elim (Bool-cases (ltb max_image_bytes image.1.size)) [
        | inl big ↦ rw big (with_note-IsCounted id "exceeds 4194304 byte vision limit" s h)
        | inr small ↦ rw small (elim (Bool-cases (image.1.size == 0)) [
          | inl none_left ↦ rw none_left (with_note-IsCounted id "empty" s h)
          | inr some_left ↦ rw some_left (record {
            parts = omega (arith, h.parts);
            total = omega (arith, h.total);
            few = omega arith;
            few_in_all = omega arith;
          })
        ])
      ]

  add_image-IsCounted :
      (get : String → Option Attachment) (id : String) (s : Images)
      → IsCounted before s
      → IsCounted before (add_image get id s)
  add_image-IsCounted get id s h = elim (Bool-cases (leb 4 s.in_message)) [
    | inl full ↦ rw full (with_note-IsCounted id "max 4 images per message" s h)
    | inr room ↦ rw room (elim (Bool-cases (leb 8 s.total)) [
      | inl full ↦ rw full (with_note-IsCounted id "max 8 images in context" s h)
      | inr room' ↦
          rw room' (with_image-IsCounted id (load_image (get id)) s (ground arith) (ground arith) h)
    ])
  ]

  add_images-IsCounted :
      (get : String → Option Attachment) (refs : List Fields) (s : Images)
      → IsCounted before s
      → IsCounted before (add_images get refs s)
  unfolding add_images
  add_images-IsCounted get [] s h = h
  add_images-IsCounted get (ref ∷ refs) s h = elim (Bool-cases (is_empty (image_id ref))) [
    | inl skip ↦ rw skip (add_images-IsCounted get refs s h)
    | inr image ↦ rw image (
        add_images-IsCounted get refs (add_image get (image_id ref) s)
          (add_image-IsCounted get (image_id ref) s h))
  ]

-- A content whose images are counted in a total that stays below the limit.
pub record IsLimited (before : ℕ) (r : Json × ℕ) : Type 0 where
  pub total : r.1 ≡ before + images_in_content r.0
  pub few : images_in_content r.0 ≤ 4
  pub few_in_all : r.1 ≤ 8

-- A text has no images.
text-IsLimited : (before : ℕ) (s : String) → before ≤ 8 → IsLimited before (text s, before)
text-IsLimited before s room = record { total = omega arith; few = omega arith; few_in_all = room }

multimodal-images :
    (s : String) (parts : List Json) → images_in_content (multimodal s parts) ≡ parts_count parts
unfolding image_count parts_count is_image field_of
multimodal-images s [] = refl
multimodal-images s (p ∷ ps) = ground (arith, image_count-elements (p ∷ ps))

counted-IsLimited :
    (before : ℕ) (s : Images) (told : String)
    → IsCounted before s
    → IsLimited before (multimodal told (rev_onto s.parts []), s.total)
unfolding parts_count
counted-IsLimited before s told h =
    let same = multimodal-images told (rev_onto s.parts []) in
    let turned = parts_count-rev_onto s.parts [] in
    record {
      total = omega (arith, same, turned, h.parts, h.total);
      few = omega (arith, same, turned, h.parts, h.few);
      few_in_all = h.few_in_all;
    }

module _ (deps : Deps) where
  content_of-IsLimited :
      (get : Option (String → Option Attachment)) (s : String) (refs : List Fields) (before : ℕ)
      → before ≤ 8
      → IsLimited before (content_of deps get s refs before)
  unfolding parts_count
  content_of-IsLimited none s refs before room = text-IsLimited before s room
  content_of-IsLimited (some get) s [] before room = text-IsLimited before s room
  content_of-IsLimited (some get) s (ref ∷ refs) before room =
      let none_yet : Images = record { parts = []; notes = []; in_message = 0; total = before } in
      let r = add_images get (ref ∷ refs) none_yet in
      elim (Bool-cases deps.skip_pixels) [
        | inl skip ↦
            rw skip (text-IsLimited before (with_notes s (skipped_notes (ref ∷ refs))) room)
        | inr pixels ↦ rw pixels (
            counted-IsLimited before r (with_notes s (rev_onto r.notes [])) (
              add_images-IsCounted before get (ref ∷ refs) none_yet (record {
                parts = refl;
                total = omega arith;
                few = omega arith;
                few_in_all = room;
              })))
      ]

  pub user_llm_content-IsLimited :
      (payload : Payload) (before : ℕ)
      → before ≤ 8
      → IsLimited before (user_llm_content deps payload before)
  unfolding user_llm_content
  user_llm_content-IsLimited payload before room =
      content_of-IsLimited deps.attachment (user_content_from_payload deps payload)
        (llm_attachment_refs (payload "attachments")) before room
