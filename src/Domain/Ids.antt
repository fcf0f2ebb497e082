-- ===== src/Domain/Ids.antt =====
-- internal/domain/valueobject/ids.go: texts that are trimmed and not empty.
use buat_postingan.Base.{
  ℕ, suc, String, ◌≡◌, arith, trim_space, trim_space_idem, is_empty, ltb, if◌then◌else◌,
}
use buat_postingan.Apperr.{plain}
use buat_postingan.Exec.{Result, ok, err}

new_id : String → String → Result String
new_id message raw = let s = trim_space raw in if is_empty s then err (plain message) else ok s

-- `NewThreadID`
unfoldable pub new_thread_id : String → Result String
unfolding new_id
new_thread_id raw = new_id "thread_id empty" raw

-- `NewTurnID`
unfoldable pub new_turn_id : String → Result String
unfolding new_id
new_turn_id raw = new_id "turn_id empty" raw

-- `NewItemID`
unfoldable pub new_item_id : String → Result String
unfolding new_id
new_item_id raw = new_id "item_id empty" raw

-- `len([]rune(s))`
unfoldable pub rune_count : String → ℕ
rune_count String.[] = 0
rune_count (String.◌∷◌ c s) = suc (rune_count s)

-- `NewTitle`
unfoldable pub new_title : String → Result String
unfolding rune_count
new_title raw =
    let s = trim_space raw in
    if is_empty s
    then err (plain "title invalid")
    else if ltb 60 (rune_count s)
    then err (plain "title invalid")
    else ok s

-- What `NewTurnID` accepts it accepts again, unchanged.
pub new_turn_id_idem : (raw s : String) → new_turn_id raw ≡ ok s → new_turn_id s ≡ ok s
unfolding new_turn_id
new_turn_id_idem raw s h = ground (arith, trim_space_idem raw)

-- What `NewThreadID` accepts it accepts again, unchanged.
pub new_thread_id_idem : (raw s : String) → new_thread_id raw ≡ ok s → new_thread_id s ≡ ok s
unfolding new_thread_id
new_thread_id_idem raw s h = ground (arith, trim_space_idem raw)

-- What `NewTitle` accepts it accepts again, unchanged.
pub new_title_idem : (raw s : String) → new_title raw ≡ ok s → new_title s ≡ ok s
unfolding new_title
new_title_idem raw s h = ground (arith, trim_space_idem raw)
