-- ===== src/Worker/Content.antt =====
-- worker.go and vision.go: the content of a user message for the model, with its attachments.
pub mod Limits
use buat_postingan.Base.{
  ℕ, zero, suc, ◌+◌, ◌*◌, String, Bool, true, false, Option, none, some, List, [], ◌∷◌, ◌++◌, ltb,
  leb, ◌==◌, ◌&&◌, not, str_eq, is_empty, trim_space, if◌then◌else◌,
}
use Prim.Native.String.{◌++◌ as append}
use buat_postingan.Json.{
  Json, num, text, arr, obj, bool, Elements, nil, cons, Fields, end, field, Payload, as_text,
  field_of,
}
use buat_postingan.Worker.{Attachment, AttachmentMeta, Deps}
use buat_postingan.Base.Int.{pos}
use buat_postingan.Worker.Texts.{join}

-- a field that is there
abbrev pub carried : String → Option Json → Fields → Fields
carried k none fs = fs
carried k (some v) fs = field k v fs

abbrev pub missing_field : Option Json → Fields
missing_field (some (bool true)) = field "missing" (bool true) end
missing_field _ = end

abbrev pub id_or : String → String → String
id_or id other = if is_empty id then other else id

-- `normalizeLLMAttachmentRef`: the fields of the reference
unfoldable pub normalize_llm_attachment_ref : Fields → Option Fields
unfolding field_of
normalize_llm_attachment_ref m =
    let id =
      trim_space (id_or (as_text (field_of "attachment_id" m)) (as_text (field_of "id" m))) in
    if is_empty id
    then none
    else some (
        field "attachment_id" (text id) (
          carried "filename" (field_of "filename" m) (
            carried "mime" (field_of "mime" m) (
              carried "size" (field_of "size" m)
                (carried "kind" (field_of "kind" m) (missing_field (field_of "missing" m)))))))

abbrev pub with_ref : Option Fields → List Fields → List Fields
with_ref none refs = refs
with_ref (some ref) refs = ref ∷ refs

unfoldable pub refs_of : Elements → List Fields
unfolding normalize_llm_attachment_ref
refs_of nil = []
refs_of (cons (obj m) els) = with_ref (normalize_llm_attachment_ref m) (refs_of els)
refs_of (cons _ els) = refs_of els

-- `llmAttachmentRefs`
abbrev pub llm_attachment_refs : Option Json → List Fields
llm_attachment_refs (some (arr els)) = refs_of els
llm_attachment_refs _ = []

unfoldable pub array_of : List Fields → Elements
array_of [] = nil
array_of (m ∷ ms) = cons (obj m) (array_of ms)

-- a text, and a block after it
abbrev pub with_block : String → String → String
with_block s block = if is_empty (trim_space s) then block else append s (append "\n\n" block)

module _ (deps : Deps) where
  abbrev content_with : String → List Fields → String
  content_with s [] = s
  content_with s (ref ∷ refs) =
      with_block (trim_space s)
        (append "attachments: " (deps.marshal (arr (array_of (ref ∷ refs)))))

  -- `userContentFromPayload`
  unfoldable pub user_content_from_payload : Payload → String
  unfolding refs_of array_of
  user_content_from_payload payload =
      content_with (as_text (payload "text")) (llm_attachment_refs (payload "attachments"))

abbrev pub ref_of : String → Option AttachmentMeta → Json
ref_of id none =
    obj (field "id" (text id) (field "attachment_id" (text id) (field "missing" (bool true) end)))
ref_of id (some meta) = obj (
    field "id" (text meta.id) (
      field "attachment_id" (text meta.id) (
        field "filename" (text meta.filename) (
          field "mime" (text meta.mime)
            (field "size" (num (pos meta.size)) (field "kind" (text meta.kind) end))))))

unfoldable pub refs_with : (String → Option AttachmentMeta) → List String → List Json
refs_with get [] = []
refs_with get (id ∷ ids) = ref_of id (get id) ∷ refs_with get ids

-- `attachmentRefs`
abbrev pub attachment_refs : Option (String → Option AttachmentMeta) → List String → List Json
attachment_refs none ids = []
attachment_refs (some get) ids = refs_with get ids

-- `MaxVisionImagesPerMessage`, `MaxVisionImagesTotal` and `MaxVisionImageBytes`
abbrev pub max_images_per_message : ℕ
max_images_per_message = 4

abbrev pub max_images_total : ℕ
max_images_total = 8

abbrev pub max_image_bytes : ℕ
max_image_bytes = 4 * 1024 * 1024

-- The images and the notes of the loop of `userLLMContent`, the last ones first, and the images in
-- the message and in the whole list.
pub record Images : Type 0 where
  pub parts : List Json
  pub notes : List String
  pub in_message : ℕ
  pub total : ℕ

abbrev pub with_note : String → String → Images → Images
with_note id why s = record s {
  notes = append "[image " (append id (append " skipped: " (append why "]"))) ∷ s.notes;
}

-- `visionLoader.load`: the type and the bytes of an image
abbrev pub load_image : Option Attachment → Option (String × Attachment)
load_image none = none
load_image (some a) =
    if str_eq a.kind "image"
    then some (if is_empty (trim_space a.mime) then "image/png" else trim_space a.mime, a)
    else none

abbrev pub image_part : String → String → Json
image_part mime base64 = obj (
    field "type" (text "image_url") (
      field "image_url"
        (obj (field "url" (text (append "data:" (append mime (append ";base64," base64)))) end))
        end))

abbrev pub with_image : String → Option (String × Attachment) → Images → Images
with_image id none s = with_note id "unavailable" s
with_image id (some image) s =
    if ltb max_image_bytes image.1.size
    then with_note id "exceeds 4194304 byte vision limit" s
    else if image.1.size == 0
    then with_note id "empty" s
    else record s {
      parts = image_part image.0 image.1.base64 ∷ s.parts;
      in_message = s.in_message + 1;
      total = s.total + 1;
    }

-- The body of the loop for a reference that names an image.
abbrev pub add_image : (String → Option Attachment) → String → Images → Images
add_image get id s =
    if leb max_images_per_message s.in_message
    then with_note id "max 4 images per message" s
    else if leb max_images_total s.total
    then with_note id "max 8 images in context" s
    else with_image id (load_image (get id)) s

-- The id of a reference to an image.
abbrev pub image_id : Fields → String
image_id ref =
    if str_eq (as_text (field_of "kind" ref)) "image"
    then as_text (field_of "attachment_id" ref)
    else ""

unfoldable pub add_images : (String → Option Attachment) → List Fields → Images → Images
add_images get [] s = s
add_images get (ref ∷ refs) s =
    add_images get refs (if is_empty (image_id ref) then s else add_image get (image_id ref) s)

-- The notes of the loop when pixels are skipped.
unfoldable pub skipped_notes : List Fields → List String
skipped_notes [] = []
skipped_notes (ref ∷ refs) =
    let rest = skipped_notes refs in
    if is_empty (image_id ref)
    then rest
    else append "[image "
        (append (image_id ref) " skipped: vision pixels disabled for this model/config]")
      ∷ rest

unfoldable pub rev_onto : {A : Type 0} → List A → List A → List A
rev_onto [] ys = ys
rev_onto (x ∷ xs) ys = rev_onto xs (x ∷ ys)

unfoldable pub elements_of : List Json → Elements
elements_of [] = nil
elements_of (x ∷ xs) = cons x (elements_of xs)

abbrev pub with_notes : String → List String → String
with_notes s [] = s
with_notes s (n ∷ ns) = with_block s (join "\n" (n ∷ ns))

abbrev pub text_part : String → Json
text_part s = obj (
    field "type" (text "text")
      (field "text" (text (if is_empty (trim_space s) then "(image attachment)" else s)) end))

abbrev pub multimodal : String → List Json → Json
multimodal s [] = text s
multimodal s (p ∷ ps) = arr (cons (text_part s) (elements_of (p ∷ ps)))

module _ (deps : Deps) where
  abbrev content_of : Option (String → Option Attachment) → String → List Fields → ℕ → Json × ℕ
  content_of none s refs total = (text s, total)
  content_of (some get) s [] total = (text s, total)
  content_of (some get) s (ref ∷ refs) total =
      if deps.skip_pixels
      then (text (with_notes s (skipped_notes (ref ∷ refs))), total)
      else (let r =
            add_images get (ref ∷ refs)
              (record { parts = []; notes = []; in_message = 0; total = total }) in
          (multimodal (with_notes s (rev_onto r.notes [])) (rev_onto r.parts []), r.total))

  -- `userLLMContent`: the content, and the images in the list so far
  unfoldable pub user_llm_content : Payload → ℕ → Json × ℕ
  unfolding user_content_from_payload add_images skipped_notes rev_onto elements_of
  user_llm_content payload total =
      content_of deps.attachment (user_content_from_payload deps payload)
        (llm_attachment_refs (payload "attachments")) total
