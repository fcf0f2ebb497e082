-- ===== src/Worker/Texts/Bounds.antt =====
-- compact.go and title.go: the lengths of texts that are cut.
use buat_postingan.Base.{
  ℕ, zero, suc, ◌≤◌, String, Bool, true, false, ◌≡◌, is_empty, trim_space, trim_left, trim_right,
  is_space, not, refl, arith,
}
use Prim.Native.Char.{code}
use native.Mathlib.Nat.{le_trans}
use buat_postingan.Domain.Ids.{rune_count}
use buat_postingan.Worker.Texts.{take_runes, clamp_runes}

pub take_runes-bound : (n : ℕ) (s : String) → rune_count (take_runes n s) ≤ n
unfolding take_runes rune_count
take_runes-bound zero s = omega arith
take_runes-bound (suc n) String.[] = omega arith
take_runes-bound (suc n) (String.◌∷◌ c s) = omega (arith, take_runes-bound n s)

pub clamp_runes-bound : (raw : String) (n : ℕ) → rune_count (clamp_runes raw (suc n)) ≤ suc n
unfolding clamp_runes
clamp_runes-bound raw n = ground (arith, take_runes-bound (suc n) (trim_space raw))

trim_left-bound : (s : String) → rune_count (trim_left s) ≤ rune_count s
unfolding trim_left rune_count
trim_left-bound String.[] = omega arith
trim_left-bound (String.◌∷◌ c s) = ground (arith, trim_left-bound s)

trim_right-bound : (s : String) → rune_count (trim_right s) ≤ rune_count s
unfolding trim_right rune_count
trim_right-bound String.[] = omega arith
trim_right-bound (String.◌∷◌ c s) = ground (arith, trim_right-bound s)

pub rune_count-trim_space : (s : String) → rune_count (trim_space s) ≤ rune_count s
unfolding trim_space
rune_count-trim_space s = le_trans (trim_right-bound (trim_left s)) (trim_left-bound s)

-- Whether a text begins with something that is no space.
abbrev pub begins : String → Bool
begins String.[] = false
begins (String.◌∷◌ c s) = not (is_space (code c))

trim_right-begins : (s : String) → begins s ≡ true → begins (trim_right s) ≡ true
unfolding trim_right
trim_right-begins String.[] e = cc
trim_right-begins (String.◌∷◌ c s) e = ground arith

trim_right-empty : (s : String) → is_empty (trim_right s) ≡ false → is_empty s ≡ false
unfolding trim_right
trim_right-empty String.[] e = e
trim_right-empty (String.◌∷◌ c s) e = refl

trim_left-begins : (s : String) → is_empty (trim_left s) ≡ false → begins (trim_left s) ≡ true
unfolding trim_left
trim_left-begins String.[] e = cc
trim_left-begins (String.◌∷◌ c s) e = ground (arith, trim_left-begins s)

begins-trim_space : (s : String) → begins s ≡ true → is_empty (trim_space s) ≡ false
unfolding trim_space trim_left trim_right
begins-trim_space String.[] e = cc
begins-trim_space (String.◌∷◌ c s) e = ground arith

trim_space-begins : (s : String) → is_empty (trim_space s) ≡ false → begins (trim_space s) ≡ true
unfolding trim_space
trim_space-begins s e =
    trim_right-begins (trim_left s) (trim_left-begins s (trim_right-empty (trim_left s) e))

take_runes-begins : (n : ℕ) (s : String) → begins s ≡ true → begins (take_runes (suc n) s) ≡ true
unfolding take_runes
take_runes-begins n String.[] e = cc
take_runes-begins n (String.◌∷◌ c s) e = e

-- The first runes of a trimmed text that is not empty are not empty when they are trimmed.
pub trim_space-take_runes :
    (n : ℕ) (s : String)
    → is_empty (trim_space s) ≡ false
    → is_empty (trim_space (take_runes (suc n) (trim_space s))) ≡ false
trim_space-take_runes n s e =
    begins-trim_space (take_runes (suc n) (trim_space s))
      (take_runes-begins n (trim_space s) (trim_space-begins s e))
