-- ===== src/Float.antt =====
-- C++ `float` and `double` values as IEEE 754 bit patterns: the sign bit above a magnitude, whose
-- exponent field is all ones for the infinities and the NaNs. Comparison and negation are those of
-- the language; the arithmetic that rounds is in Kernels.antt, as an interface.
use neuraldatabase.Prelude.{
  ℕ, ◌+◌, ◌-◌, ◌%◌, ◌^◌, ◌<◌, ◌≡◌, Bool, false, ◌||◌, arith, ltb, if◌then◌else◌,
}

-- The number of patterns below the sign bit, and the pattern of +∞.
pub record Format : Type 0 where
  pub sign : ℕ
  pub infinity : ℕ

abbrev pub binary32 : Format
binary32 = record { sign = 2 ^ 31; infinity = 0x7F800000 }

abbrev pub binary64 : Format
binary64 = record { sign = 2 ^ 63; infinity = 0x7FF0000000000000 }

abbrev pub Float : Type 0
Float = ℕ

unfoldable pub is_nan : Format → ℕ → Bool
is_nan f x = ltb f.infinity (x % f.sign)

-- The patterns in the order of the numbers that they stand for; both zeros have one place.
unfoldable pub place : Format → ℕ → ℕ
place f x = if ltb x f.sign then f.sign + x else f.sign - x % f.sign

-- `a < b`, false if either is a NaN
unfoldable pub ieee_lt : Format → ℕ → ℕ → Bool
unfolding is_nan place
ieee_lt f a b = if is_nan f a || is_nan f b then false else ltb (place f a) (place f b)

-- `a < b` and `a > b` on `float`
unfoldable pub float_lt : Float → Float → Bool
unfolding ieee_lt
float_lt a b = ieee_lt binary32 a b

-- `-x` on `float`
unfoldable pub float_neg : Float → Float
float_neg x = (x + 2 ^ 31) % 2 ^ 32

abbrev pub neg_infinity : Float
neg_infinity = 0xFF800000

-- a pattern of 32 bits that is no NaN
pub record IsNumber (x : Float) : Type 0 where
  pub word : x < 2 ^ 32
  pub no_nan : is_nan binary32 x ≡ false

abbrev pub rank : Float → ℕ
rank x = place binary32 x

pub float_lt-rank : (a b : Float) → IsNumber a → IsNumber b → float_lt a b ≡ ltb (rank a) (rank b)
unfolding float_lt is_nan
float_lt-rank a b ha hb = ground arith

pub float_neg-neg : (x : Float) → x < 2 ^ 32 → float_neg (float_neg x) ≡ x
unfolding float_neg
float_neg-neg x h = omega arith

pub float_neg-IsNumber : (x : Float) → IsNumber x → IsNumber (float_neg x)
unfolding float_neg is_nan
float_neg-IsNumber x h = ground arith

-- Negation turns the order round.
pub float_lt-neg :
    (a b : Float) → IsNumber a → IsNumber b → float_lt (float_neg a) (float_neg b) ≡ float_lt b a
unfolding float_lt float_neg is_nan
float_lt-neg a b ha hb = ground arith
