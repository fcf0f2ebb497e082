-- ===== src/Base/Texts.antt =====
-- Go's `strings.TrimSpace` on texts, and dictionaries as functions of a text.
use Prim.Native.Nat.{ℕ}
use Prim.Native.Char.{code}
use Prim.Native.String.{String}
use mathlib.Core.Path.{◌≡◌, refl, ap, ◌∙◌}
use mathlib.Core.Logic.{◌≢◌, inl, inr}
use mathlib.Core.Bool.{Bool, true, false, ◌&&◌, ◌||◌}
use native.Mathlib.Omega.{arith}
use text.Mathlib.TextEquality.{eq_iff}
use text.Mathlib.TextPositions.{eq_refl}
use buat_postingan.Base.Tests.{◌==◌, leb, if◌then◌else◌, Bool-cases}
pub use text.Mathlib.Text.{◌==◌ as str_eq}

-- `unicode.IsSpace`
unfoldable pub is_space : ℕ → Bool
is_space c =
    (leb 9 c && leb c 13)
    || c == 32
    || c == 0x85
    || c == 0xA0
    || c == 0x1680
    || (leb 0x2000 c && leb c 0x200A)
    || c == 0x2028
    || c == 0x2029
    || c == 0x202F
    || c == 0x205F
    || c == 0x3000

abbrev pub is_empty : String → Bool
is_empty String.[] = true
is_empty (String.◌∷◌ c s) = false

unfoldable pub trim_left : String → String
trim_left String.[] = String.[]
trim_left (String.◌∷◌ c s) = if is_space (code c) then trim_left s else String.◌∷◌ c s

unfoldable pub trim_right : String → String
trim_right String.[] = String.[]
trim_right (String.◌∷◌ c s) =
    let r = trim_right s in if is_space (code c) && is_empty r then String.[] else String.◌∷◌ c r

-- `strings.TrimSpace`
unfoldable pub trim_space : String → String
unfolding trim_left trim_right is_space
trim_space s = trim_right (trim_left s)

trim_left_trimmed : (s : String) → trim_left (trim_right (trim_left s)) ≡ trim_right (trim_left s)
unfolding trim_left trim_right
trim_left_trimmed String.[] = refl
trim_left_trimmed (String.◌∷◌ c s) = ground (arith, trim_left_trimmed s)

trim_right_idem : (s : String) → trim_right (trim_right s) ≡ trim_right s
unfolding trim_right
trim_right_idem String.[] = refl
trim_right_idem (String.◌∷◌ c s) = ground (arith, trim_right_idem s)

-- A trimmed text is left as it is by another trim.
pub trim_space_idem : (s : String) → trim_space (trim_space s) ≡ trim_space s
unfolding trim_space
trim_space_idem s = ap trim_right (trim_left_trimmed s) ∙ trim_right_idem (trim_left s)

-- The key `k` of a dictionary gets the value `v`; the others keep theirs.
abbrev pub update {ℓ} : {V : Type ℓ} → (String → V) → String → V → String → V
update f k v j = if str_eq k j then v else f j

pub update_self {ℓ} : {V : Type ℓ} (f : String → V) (k : String) (v : V) → update f k v k ≡ v
update_self f k v = rw eq_refl

pub update_ne {ℓ} :
    {V : Type ℓ} (f : String → V) (k j : String) (v : V) → k ≢ j → update f k v j ≡ f j
update_ne f k j v h = elim (Bool-cases (str_eq k j)) [
  | inl e ↦ absurd (h ((eq_iff k j).0 e))
  | inr e ↦ rw e
]
