-- ===== src/Config/Effort.antt =====
-- config.go: the words for the reasoning effort and for the vision mode. `lower` is
-- `strings.ToLower`, whose tables of letters are not repeated here.
pub mod Words
use buat_postingan.Base.{
  String, Bool, false, Option, none, some, List, [], ◌∷◌, str_eq, ◌||◌, is_empty, trim_space,
  if◌then◌else◌,
}

-- `case w₁, w₂, …`
unfoldable pub one_of : List String → String → Bool
one_of [] s = false
one_of (w ∷ ws) s = str_eq s w || one_of ws s

unfoldable pub effort_word : String → Option String
unfolding one_of
effort_word s =
    if is_empty s
    then some ""
    else if str_eq s "auto"
    then some "auto"
    else if one_of ("none" ∷ "off" ∷ "0" ∷ "false" ∷ "no" ∷ []) s
    then some "none"
    else if one_of ("minimal" ∷ "min" ∷ []) s
    then some "minimal"
    else if str_eq s "low"
    then some "low"
    else if one_of ("medium" ∷ "med" ∷ "default" ∷ []) s
    then some "medium"
    else if str_eq s "high"
    then some "high"
    else if one_of ("xhigh" ∷ "x-high" ∷ "extra" ∷ "extra_high" ∷ "extrahigh" ∷ []) s
    then some "xhigh"
    else if one_of ("max" ∷ "maximum" ∷ []) s
    then some "max"
    else none

abbrev auto_or : Option String → String
auto_or none = "auto"
auto_or (some n) = if is_empty n then "auto" else n

module _ (lower : String → String) where
  -- `NormalizeEffortOverride`: `none` is `("", false)`
  unfoldable pub normalize_effort_override : String → Option String
  unfolding effort_word
  normalize_effort_override raw = effort_word (lower (trim_space raw))

  -- `ParseEffortMode`
  unfoldable pub parse_effort_mode : String → String
  unfolding normalize_effort_override
  parse_effort_mode raw = auto_or (normalize_effort_override raw)

  -- `ParseVisionMode`
  unfoldable pub parse_vision_mode : String → String
  unfolding one_of
  parse_vision_mode raw =
      let s = lower (trim_space raw) in
      if one_of ("on" ∷ "1" ∷ "true" ∷ "yes" ∷ []) s
      then "on"
      else if one_of ("off" ∷ "0" ∷ "false" ∷ "no" ∷ []) s
      then "off"
      else "auto"
