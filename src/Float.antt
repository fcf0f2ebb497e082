-- ===== src/Float.antt =====
-- The numbers of float64 that are not negative, in units of 2^-1074, the smallest of them: the
-- conversions and operations that the code makes on times and on the numbers of JSON.
use buat_postingan.Base.{
  ℕ, zero, suc, ◌-◌, ◌*◌, ◌/◌, ◌%◌, ◌^◌, ◌<◌, ◌≡◌, refl, true, false, ltb, lt→ltb, ◌==◌, ◌&&◌, ◌||◌,
  arith, if◌then◌else◌,
}

abbrev unit : ℕ
unit = 2 ^ 1074

abbrev fuel : ℕ
fuel = 2200

-- The integer that is nearest to `p / q`, the even one of two
unfoldable nearest_int : ℕ → ℕ → ℕ
nearest_int p q =
    let d = p / q in
    let twice = 2 * (p % q) in if ltb q twice || (twice == q && d % 2 == 1) then suc d else d

-- How often a number is halved until it has at most 53 bits
unfoldable halvings : ℕ → ℕ → ℕ
halvings zero n = 0
halvings (suc left) n = elim (ltb n (2 ^ 53)) [ true ↦ 0 | false ↦ suc (halvings left (n / 2)) ]

-- `p / q` rounded to 53 bits, as each operation of float64 rounds its exact result
unfoldable pub rounded : ℕ → ℕ → ℕ
unfolding halvings nearest_int
rounded p q = let step = 2 ^ halvings fuel (p / q) in nearest_int p (q * step) * step

-- `float64(n)` of an integer
unfoldable pub float_of : ℕ → ℕ
unfolding rounded
float_of n = rounded (n * unit) 1

-- `int64(v)`
unfoldable pub int_of : ℕ → ℕ
int_of v = v / unit

-- `v / n`, by an integer below 2^53
unfoldable pub divided : ℕ → ℕ → ℕ
unfolding rounded
divided v n = rounded v n

-- `v - w`, of the larger and the smaller
unfoldable pub minus : ℕ → ℕ → ℕ
unfolding rounded
minus v w = rounded (v - w) 1

-- `v * n`, by an integer below 2^53
unfoldable pub multiplied : ℕ → ℕ → ℕ
unfolding rounded
multiplied v n = rounded (v * n) 1

-- `float64(n)` as the integer that it is, for an integer
unfoldable pub float_int : ℕ → ℕ
unfolding rounded
float_int n = rounded n 1

-- `float64(t.UnixNano()) / 1e9`: the seconds of a time that is given in nanoseconds
unfoldable pub seconds_of : ℕ → ℕ
unfolding float_of divided
seconds_of t = divided (float_of t) 1000000000

nearest_int-one : (n : ℕ) → nearest_int n 1 ≡ n
unfolding nearest_int
nearest_int-one n = ground arith

halvings_small : (left n : ℕ) → ltb n (2 ^ 53) ≡ true → halvings (suc left) n ≡ 0
unfolding halvings
halvings_small left n h = rw (h, halvings) refl

-- An integer that fits the 53 bits is kept.
pub float_int_small : (n : ℕ) → n < 2 ^ 53 → float_int n ≡ n
unfolding float_int rounded
float_int_small n h =
    let whole : n / 1 ≡ n = omega arith in
    rw (whole, halvings_small 2199 n (lt→ltb n (2 ^ 53) h), nearest_int-one n) (omega arith)
