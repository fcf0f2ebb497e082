-- ===== src/Worker/Texts.antt =====
-- compact.go and worker.go: the small functions on texts.
pub mod Bounds
use buat_postingan.Base.{
  ℕ, zero, suc, ◌+◌, String, Bool, true, false, List, [], ◌∷◌, ltb, leb, ◌==◌, ◌&&◌, is_empty,
  trim_space, if◌then◌else◌,
}
use Prim.Native.Char.{code}
use Prim.Native.String.{◌++◌ as append}
use buat_postingan.Domain.Ids.{rune_count}

-- `string(r[:max])`
unfoldable pub take_runes : ℕ → String → String
take_runes zero s = ""
take_runes (suc n) String.[] = ""
take_runes (suc n) (String.◌∷◌ c s) = String.◌∷◌ c (take_runes n s)

-- `clampRunes`
unfoldable pub clamp_runes : String → ℕ → String
unfolding take_runes rune_count
clamp_runes raw limit =
    let s = trim_space raw in
    if limit == 0 then s else if leb (rune_count s) limit then s else take_runes limit s

-- `truncateRunes`
unfoldable pub truncate_runes : String → ℕ → String
unfolding take_runes rune_count
truncate_runes raw limit =
    let s = trim_space raw in
    if is_empty s then "New chat" else if ltb limit (rune_count s) then take_runes limit s else s

-- the first runes of a text, where it is longer
unfoldable pub cut_runes : ℕ → String → String
unfolding take_runes rune_count
cut_runes limit s = if ltb limit (rune_count s) then take_runes limit s else s

-- the bytes of a character in UTF-8
abbrev pub utf8_size : ℕ → ℕ
utf8_size c = if ltb c 0x80 then 1 else if ltb c 0x800 then 2 else if ltb c 0x10000 then 3 else 4

-- `len(s)`
unfoldable pub byte_length : String → ℕ
byte_length String.[] = 0
byte_length (String.◌∷◌ c s) = utf8_size (code c) + byte_length s

-- `strings.Join`
unfoldable pub join : String → List String → String
join sep [] = ""
join sep (x ∷ []) = x
join sep (x ∷ y ∷ xs) = append x (append sep (join sep (y ∷ xs)))

-- `displayName`
unfoldable pub display_name : String → String
display_name name = if is_empty (trim_space name) then "Admin" else trim_space name

-- `workspaceForPrompt`
unfoldable pub workspace_for_prompt : String → String → String
workspace_for_prompt turn default =
    if is_empty (trim_space turn) then trim_space default else trim_space turn
