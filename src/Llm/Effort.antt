-- ===== src/Llm/Effort.antt =====
-- effort_policy.go: which reasoning effort a request carries.
pub mod Supported
use buat_postingan.Base.{
  ℕ, ◌-◌, ◌+◌, String, Bool, true, false, Option, none, some, List, [], ◌∷◌, ltb, leb, ◌==◌, ◌&&◌,
  not, str_eq, is_empty, trim_space, if◌then◌else◌,
}
use buat_postingan.Config.Effort.{parse_effort_mode, one_of}

-- `modelEffortInfo`
pub record ModelEffortInfo : Type 0 where
  pub supports : Bool
  pub supported_efforts : List String
  pub default_effort : String
  pub mandatory : Bool
  pub supports_max_tokens : Bool

-- `effortRank`
unfoldable pub effort_rank : String → Option ℕ
effort_rank s =
    if str_eq s "none"
    then some 0
    else if str_eq s "minimal"
    then some 1
    else if str_eq s "low"
    then some 2
    else if str_eq s "medium"
    then some 3
    else if str_eq s "high"
    then some 4
    else if str_eq s "xhigh"
    then some 5
    else if str_eq s "max"
    then some 6
    else none

abbrev rank_or_zero : Option ℕ → ℕ
rank_or_zero none = 0
rank_or_zero (some n) = n

abbrev is_ranked : Option ℕ → Bool
is_ranked none = false
is_ranked (some n) = true

-- `absInt(effortRank[e] - wantRank)`
abbrev pub distance : ℕ → String → ℕ
distance want e = let n = rank_or_zero (effort_rank e) in if ltb n want then want - n else n - want

-- The loop for the nearest level, from the best one so far.
unfoldable pub nearest : ℕ → String → List String → String
unfolding effort_rank
nearest want best [] = best
nearest want best (e ∷ es) =
    nearest want (if ltb (distance want e) (distance want best) then e else best) es

unfoldable pub first_other : List String → String → String
first_other [] best = best
first_other (e ∷ es) best = if not (str_eq e "none") then e else first_other es best

abbrev pub not_none : Bool → List String → String → String
not_none mandatory allowed best =
    if str_eq best "none" && mandatory then first_other allowed best else best

abbrev pub choose : Bool → String → List String → Option ℕ → List String → String
choose mandatory wanted all want [] = wanted
choose mandatory wanted all none (a ∷ more) = if one_of all wanted then wanted else a
choose mandatory wanted all (some want) (a ∷ more) =
    if one_of all wanted then wanted else not_none mandatory all (nearest want a more)

module _ (to_lower : String → String) where
  -- the levels of the catalog that are known
  unfoldable pub allowed_levels : List String → List String
  unfolding effort_rank parse_effort_mode
  allowed_levels [] = []
  allowed_levels (e ∷ es) =
      let n = parse_effort_mode to_lower e in
      let rest = allowed_levels es in
      if not (str_eq n "auto") && is_ranked (effort_rank n) then n ∷ rest else rest

  abbrev pub wanted_or_medium : String → String
  wanted_or_medium wanted =
      let w = parse_effort_mode to_lower wanted in if str_eq w "auto" then "medium" else w

  -- `mapToSupported`
  unfoldable pub map_to_supported : String → ModelEffortInfo → String
  unfolding allowed_levels nearest first_other one_of parse_effort_mode effort_rank
  map_to_supported raw info =
      let wanted = wanted_or_medium raw in
      let allowed = allowed_levels info.supported_efforts in
      choose info.mandatory wanted allowed (effort_rank wanted) allowed

  -- `wantedLevelFor`
  unfoldable pub wanted_level_for : String → ModelEffortInfo → String
  unfolding parse_effort_mode
  wanted_level_for mode info =
      let default = trim_space info.default_effort in
      if not info.supports
      then ""
      else if str_eq mode "auto"
      then (if is_empty default
          then "medium"
          else if str_eq default "none"
          then ""
          else parse_effort_mode to_lower default)
      else if str_eq mode "none" && info.mandatory
      then ""
      else mode

  -- `ResolveWithMode`, from what `lookup` finds for the model
  unfoldable pub resolve_with_mode : String → ModelEffortInfo → String
  unfolding wanted_level_for map_to_supported parse_effort_mode
  resolve_with_mode raw info =
      let mode = parse_effort_mode to_lower (trim_space raw) in
      let wanted = wanted_level_for mode info in
      if is_empty (trim_space raw)
      then ""
      else if is_empty wanted
      then ""
      else map_to_supported wanted info
