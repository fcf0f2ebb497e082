-- ===== src/Config/Effort/Words.antt =====
-- config.go: the words that the parsers answer.
use buat_postingan.Base.{
  String, Bool, ◌≡◌, refl, true, false, List, [], ◌∷◌, Option, if◌then◌else◌, is_empty, str_eq,
  trim_space, All, All-map, arith, eq_refl,
}
use buat_postingan.Config.Effort.{
  one_of, auto_or, effort_word, normalize_effort_override, parse_effort_mode, parse_vision_mode,
}

-- `EffortPickerOptions`
abbrev pub effort_picker_options : List String
effort_picker_options =
    "auto" ∷ "none" ∷ "minimal" ∷ "low" ∷ "medium" ∷ "high" ∷ "xhigh" ∷ "max" ∷ []

abbrev pub vision_options : List String
vision_options = "on" ∷ "off" ∷ "auto" ∷ []

if_both : {A : Type 0} (P : A → Type 0) (b : Bool) (x y : A) → P x → P y → P (if b then x else y)
if_both P true x y h k = h
if_both P false x y h k = k

abbrev IsOption : Option String → Type 0
IsOption o = one_of effort_picker_options (auto_or o) ≡ true

abbrev IsVision : String → Type 0
IsVision s = one_of vision_options s ≡ true

effort_word-IsOption : (s : String) → IsOption (effort_word s)
unfolding effort_word one_of
effort_word-IsOption s = if_both IsOption (is_empty s) _ _ refl (
    if_both IsOption (str_eq s "auto") _ _ refl (
      if_both IsOption (one_of ("none" ∷ "off" ∷ "0" ∷ "false" ∷ "no" ∷ []) s) _ _ refl (
        if_both IsOption (one_of ("minimal" ∷ "min" ∷ []) s) _ _ refl (
          if_both IsOption (str_eq s "low") _ _ refl (
            if_both IsOption (one_of ("medium" ∷ "med" ∷ "default" ∷ []) s) _ _ refl (
              if_both IsOption (str_eq s "high") _ _ refl (
                if_both IsOption
                  (one_of ("xhigh" ∷ "x-high" ∷ "extra" ∷ "extra_high" ∷ "extrahigh" ∷ []) s) _ _
                  refl (if_both IsOption (one_of ("max" ∷ "maximum" ∷ []) s) _ _ refl refl))))))))

module _ (lower : String → String) (raw : String) where
  -- Whatever text is configured, the effort is one of the picker's options and the vision mode is
  -- `on`, `off` or `auto`.
  pub parse-options :
      (one_of effort_picker_options (parse_effort_mode lower raw) ≡ true)
      × (one_of vision_options (parse_vision_mode lower raw) ≡ true)
  unfolding parse_effort_mode normalize_effort_override parse_vision_mode one_of
  parse-options =
      let s = lower (trim_space raw) in
      (
        effort_word-IsOption s,
        if_both IsVision (one_of ("on" ∷ "1" ∷ "true" ∷ "yes" ∷ []) s) "on"
            (if one_of ("off" ∷ "0" ∷ "false" ∷ "no" ∷ []) s then "off" else "auto") refl
            (if_both IsVision (one_of ("off" ∷ "0" ∷ "false" ∷ "no" ∷ []) s) "off" "auto" refl
              refl),
      )

-- Each word of a list is one of the list.
pub one_of_self : (hs : List String) → All (λ h. one_of hs h ≡ true) hs
unfolding one_of
one_of_self [] = tt
one_of_self (h ∷ hs) = (
  ground (arith, eq_refl h),
  All-map (λ x. one_of hs x ≡ true) (λ x. one_of (h ∷ hs) x ≡ true) hs (λ x p. ground (arith, p))
      (one_of_self hs),
)
