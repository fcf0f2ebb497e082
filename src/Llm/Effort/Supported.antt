-- ===== src/Llm/Effort/Supported.antt =====
-- effort_policy.go: the effort is one that the model supports.
use buat_postingan.Base.{
  ℕ, String, Bool, true, false, ◌≡◌, Option, none, some, List, [], ◌∷◌, ltb, ◌&&◌, not, str_eq,
  Bool-cases, inl, inr, if◌then◌else◌, All,
}
use buat_postingan.Config.Effort.{one_of}
use buat_postingan.Config.Effort.Words.{one_of_self}
use buat_postingan.Llm.Effort.{
  ModelEffortInfo, distance, nearest, first_other, allowed_levels, choose, map_to_supported,
  effort_rank, wanted_or_medium,
}

-- whether a list has an element
abbrev pub is_some_left : List String → Bool
is_some_left [] = false
is_some_left (x ∷ xs) = true

picked :
    (b : Bool) (all : List String) (x y : String)
    → one_of all x ≡ true
    → one_of all y ≡ true
    → one_of all (if b then x else y) ≡ true
picked true all x y h k = h
picked false all x y h k = k

one_of_later :
    (all : List String) (want : ℕ) (best : String) (es : List String)
    → one_of all best ≡ true
    → All (λ e. one_of all e ≡ true) es
    → one_of all (nearest want best es) ≡ true
unfolding nearest
one_of_later all want best [] h hs = h
one_of_later all want best (e ∷ es) h hs =
    one_of_later all want (if ltb (distance want e) (distance want best) then e else best) es
      (picked (ltb (distance want e) (distance want best)) all e best hs.0 h) hs.1

one_of-first_other :
    (all : List String) (es : List String) (best : String)
    → one_of all best ≡ true
    → All (λ e. one_of all e ≡ true) es
    → one_of all (first_other es best) ≡ true
unfolding first_other
one_of-first_other all [] best h hs = h
one_of-first_other all (e ∷ es) best h hs =
    picked (not (str_eq e "none")) all e (first_other es best) hs.0
      (one_of-first_other all es best h hs.1)

choose-one_of :
    (mandatory : Bool) (wanted : String) (want : Option ℕ) (all es : List String)
    → is_some_left es ≡ true
    → All (λ e. one_of all e ≡ true) es
    → All (λ e. one_of all e ≡ true) all
    → one_of all (choose mandatory wanted all want es) ≡ true
choose-one_of mandatory wanted want all [] e hs h = cc
choose-one_of mandatory wanted none all (a ∷ more) e hs h = elim (Bool-cases (one_of all wanted)) [
  | inl there ↦ rw there there
  | inr not_there ↦ rw not_there hs.0
]
choose-one_of mandatory wanted (some want) all (a ∷ more) e hs h =
    let best = one_of_later all want a more hs.0 hs.1 in
    elim (Bool-cases (one_of all wanted)) [
      | inl there ↦ rw there there
      | inr not_there ↦ rw not_there (
          picked (str_eq (nearest want a more) "none" && mandatory) all
            (first_other all (nearest want a more)) (nearest want a more)
            (one_of-first_other all all (nearest want a more) best h) best)
    ]

-- When the catalog names at least one level that is known for a model, the level that is sent is
-- one of those that it names; this is `none` when it names no other, for a mandatory model too.
pub map_to_supported-allowed :
    (to_lower : String → String) (raw : String) (info : ModelEffortInfo)
    → is_some_left (allowed_levels to_lower info.supported_efforts) ≡ true
    → one_of (allowed_levels to_lower info.supported_efforts) (map_to_supported to_lower raw info)
      ≡ true
unfolding map_to_supported
map_to_supported-allowed to_lower raw info e =
    let all = allowed_levels to_lower info.supported_efforts in
    let wanted = wanted_or_medium to_lower raw in
    choose-one_of info.mandatory wanted (effort_rank wanted) all all e (one_of_self all)
      (one_of_self all)
