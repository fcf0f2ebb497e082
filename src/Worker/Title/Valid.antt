-- ===== src/Worker/Title/Valid.antt =====
-- title.go: the title that is made for a conversation is one that `NewTitle` accepts.
use buat_postingan.Base.{
  ◌≤◌, String, true, false, ◌≡◌, refl, ap, ◌∙◌, inl, inr, Bool-cases, ltb, is_empty, trim_space,
  trim_space_idem, arith, ◌||◌, not,
}
use buat_postingan.Exec.{ok}
use buat_postingan.Domain.Ids.{rune_count, new_title}
use buat_postingan.Worker.{ChatReply, chat_answer, chat_error, chat_cancelled}
use buat_postingan.Worker.Texts.{take_runes, truncate_runes}
use buat_postingan.Worker.Texts.Bounds.{
  take_runes-bound, rune_count-trim_space, trim_space-take_runes,
}
use buat_postingan.Worker.Title.{generate_title, clean_title, is_title}

-- `NewTitle` accepts the text.
abbrev pub Accepted : String → Type 0
Accepted raw = (t : String) × (new_title raw ≡ ok t)

new_title-Accepted :
    (raw : String) → is_empty (trim_space raw) ≡ false → rune_count raw ≤ 60 → Accepted raw
unfolding new_title
new_title-Accepted raw some_text short = (trim_space raw, ground (arith, rune_count-trim_space raw))

new_chat-Accepted : Accepted "New chat"
unfolding new_title trim_space
new_chat-Accepted = ("New chat", refl)

truncate_runes-Accepted : (raw : String) → Accepted (truncate_runes raw 60)
unfolding truncate_runes
truncate_runes-Accepted raw = elim (Bool-cases (is_empty (trim_space raw))) [
  | inl none_left ↦ rw none_left new_chat-Accepted
  | inr some_left ↦ elim (Bool-cases (ltb 60 (rune_count (trim_space raw)))) [
    | inl long ↦
        rw (some_left, long)
          (new_title-Accepted (take_runes 60 (trim_space raw))
            (trim_space-take_runes 59 raw some_left) (take_runes-bound 60 (trim_space raw)))
    | inr short ↦
        rw (some_left, short)
          (new_title-Accepted (trim_space raw) (ap is_empty (trim_space_idem raw) ∙ some_left)
            (ground arith))
  ]
]

is_title-Accepted : (raw : String) → is_title raw ≡ true → Accepted raw
unfolding new_title
is_title-Accepted raw e = elim (Bool-cases (is_empty (trim_space raw))) [
  | inl none_left ↦ ground arith
  | inr some_left ↦ (trim_space raw, ground arith)
]

-- Whatever the model answers, an error, a stop or a text of any kind, the title that
-- `generateTitle` makes is one that `NewTitle` accepts.
pub generate_title-Accepted :
    (reply : ChatReply) (user_text : String) → Accepted (generate_title reply user_text)
unfolding generate_title
generate_title-Accepted (chat_error e) user_text = truncate_runes-Accepted user_text
generate_title-Accepted chat_cancelled user_text = truncate_runes-Accepted user_text
generate_title-Accepted (chat_answer resp streamed) user_text =
    let raw = clean_title resp.text in
    elim (Bool-cases (is_empty raw || not (is_title raw))) [
      | inl bad ↦ rw bad (truncate_runes-Accepted user_text)
      | inr good ↦ rw good (is_title-Accepted raw (ground arith))
    ]
