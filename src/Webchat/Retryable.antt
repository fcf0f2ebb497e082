-- ===== src/Webchat/Retryable.antt =====
-- methods.go: whether a turn may be retried, and by whom.
use buat_postingan.Base.{
  ℕ, String, Bool, true, false, Option, none, some, List, [], ◌∷◌, ◌==◌, ◌&&◌, not, str_eq,
  trim_space, if◌then◌else◌,
}
use buat_postingan.Base.Int.{ℤ, pos, negsuc}
use buat_postingan.Json.{Json, num, obj, as_text, field_of}
use buat_postingan.Domain.{TranscriptItem}
use buat_postingan.Domain.ItemType

-- `findUserMessage`
unfoldable pub find_user_message : List TranscriptItem → String → Option TranscriptItem
find_user_message [] turn = none
find_user_message (it ∷ items) turn =
    if str_eq it.item_type ItemType.user_message && str_eq it.turn_id turn
    then some it
    else find_user_message items turn

-- The variables of the loop of `isRetryableFailed`.
pub record TurnEnd : Type 0 where
  pub last_failed : Option TranscriptItem
  pub completed : Bool
  pub empty_response : Bool

abbrev pub no_end : TurnEnd
no_end = record { last_failed = none; completed = false; empty_response = false }

-- The `switch` of the loop.
unfoldable pub turn_end : TurnEnd → TranscriptItem → TurnEnd
turn_end s it =
    if str_eq it.item_type ItemType.agent_message
    then record s {
      empty_response = str_eq (trim_space (as_text (it.payload "text"))) "(empty model response)";
    }
    else if str_eq it.item_type ItemType.turn_completed
    then record s { completed = true }
    else if str_eq it.item_type ItemType.turn_failed
    then record { last_failed = some it; completed = false; empty_response = false }
    else s

unfoldable pub scan_turn : TurnEnd → String → List TranscriptItem → TurnEnd
unfolding turn_end
scan_turn s turn [] = s
scan_turn s turn (it ∷ items) =
    scan_turn (if str_eq it.turn_id turn then turn_end s it else s) turn items

abbrev pub error_code : Option Json → String
error_code (some (obj fields)) = as_text (field_of "code" fields)
error_code _ = ""

abbrev pub failed_retryable : Option TranscriptItem → Bool
failed_retryable none = false
failed_retryable (some it) = not (str_eq (error_code (it.payload "error")) "interrupted")

abbrev pub end_retryable : TurnEnd → Bool
end_retryable s = if s.completed then s.empty_response else failed_retryable s.last_failed

-- `isRetryableFailed`
unfoldable pub is_retryable_failed : List TranscriptItem → String → Bool
unfolding scan_turn
is_retryable_failed items turn = end_retryable (scan_turn no_end turn items)

-- `asInt64`
abbrev pub as_int64 : Option Json → ℤ
as_int64 (some (num n)) = n
as_int64 _ = pos 0

-- `initiator != 0 && initiator != in.AdminUserID`
abbrev pub is_other : ℤ → ℕ → Bool
is_other (pos n) admin = not (n == 0) && not (n == admin)
is_other (negsuc n) admin = true
