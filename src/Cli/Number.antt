-- ===== src/Cli/Number.antt =====
-- src/cli.cpp: std::stoul and std::stoi, as far as the standard fixes them: blanks, a sign, digits,
-- and whatever follows; no digits, or too large a number, throws.
use Prim.Native.Char.{code}
use Prim.Native.String.{String}
use neuraldatabase.Prelude.{
  ℤ, pos, negsuc, ℕ, zero, suc, ◌+◌, ◌-◌, ◌*◌, ◌/◌, ◌%◌, ◌^◌, ◌≤◌, ◌<◌, ◌≡◌, refl, ap, ◌∙◌, Bool,
  true, false, ◌&&◌, ◌||◌, Option, none, some, [], ◌∷◌, ◌++◌, arith, All, All-append, Bool-cases,
  inl, inr, ltb, leb, ◌==◌, if◌then◌else◌,
}
use neuraldatabase.Bytes.{◌>>=◌}
use neuraldatabase.Filter.{Text}

-- The bytes of an ASCII literal.
abbrev pub codes : String → Text
codes String.[] = []
codes (String.◌∷◌ c s) = code c ∷ codes s

unfoldable pub is_digit : ℕ → Bool
is_digit c = leb 48 c && leb c 57

unfoldable pub skip_blanks : Text → Text
skip_blanks [] = []
skip_blanks (c ∷ cs) =
    let rest = skip_blanks cs in if c == 32 || (leb 9 c && leb c 13) then rest else c ∷ cs

-- whether there is a minus sign, and what follows the sign
unfoldable pub take_sign : Text → Bool × Text
take_sign [] = (false, [])
take_sign (c ∷ cs) =
    if c == 45 then (true, cs) else if c == 43 then (false, cs) else (false, c ∷ cs)

-- the number before the first byte that is no digit
unfoldable pub read_digits : ℕ → Text → ℕ
read_digits acc [] = acc
read_digits acc (c ∷ cs) =
    let more = read_digits (acc * 10 + (c - 48)) cs in if is_digit c then more else acc

unfoldable pub starts_digit : Text → Bool
starts_digit [] = false
starts_digit (c ∷ _) = is_digit c

-- sign and magnitude; `none` is std::invalid_argument
unfoldable pub read_number : Text → Option (Bool × ℕ)
read_number text =
    let signed = take_sign (skip_blanks text) in
    if starts_digit signed.1 then some (signed.0, read_digits 0 signed.1) else none

-- A 64-bit unsigned long. A negative number wraps; `none` is either exception.
unfoldable pub to_unsigned : Bool × ℕ → Option ℕ
to_unsigned (negative, n) =
    if leb (2 ^ 64) n then none else some (if negative then (2 ^ 64 - n) % 2 ^ 64 else n)

abbrev negate : ℕ → ℤ
negate zero = pos 0
negate (suc n) = negsuc n

unfoldable pub to_int : Bool × ℕ → Option ℤ
to_int (true, n) = if ltb (2 ^ 31) n then none else some (negate n)
to_int (false, n) = if leb (2 ^ 31) n then none else some (pos n)

unfoldable pub stoul : Text → Option ℕ
stoul text = do x ← read_number text; to_unsigned x

unfoldable pub stoi : Text → Option ℤ
stoi text = do x ← read_number text; to_int x

-- The decimal digits of a number.
unfoldable pub decimal_from : ℕ → ℕ → Text
decimal_from zero n = []
decimal_from (suc fuel) n =
    let rest = decimal_from fuel (n / 10) ++ (48 + n % 10) ∷ [] in
    if ltb n 10 then (48 + n) ∷ [] else rest

unfoldable pub decimal : ℕ → Text
unfolding decimal_from
decimal n = decimal_from (suc n) n

-- An int as it is printed.
unfoldable pub show_int : ℤ → Text
show_int (pos n) = decimal n
show_int (negsuc n) = 45 ∷ decimal (suc n)

-- the range of an int
abbrev pub IsInt : ℤ → Type 0
IsInt (pos n) = n < 2 ^ 31
IsInt (negsuc n) = n < 2 ^ 31

read_digits-append :
    (acc : ℕ) (xs : Text) (c : ℕ)
    → All (λ x. is_digit x ≡ true) xs
    → is_digit c ≡ true
    → read_digits acc (xs ++ c ∷ []) ≡ read_digits acc xs * 10 + (c - 48)
unfolding read_digits
read_digits-append acc [] c h k = rw k refl
read_digits-append acc (x ∷ xs) c h k = rw h.0 (read_digits-append (acc * 10 + (x - 48)) xs c h.1 k)

digit-is_digit : (d : ℕ) → d < 10 → is_digit (48 + d) ≡ true
unfolding is_digit
digit-is_digit d h = ground arith

decimal_from-digits : (fuel n : ℕ) → All (λ x. is_digit x ≡ true) (decimal_from fuel n)
unfolding decimal_from
decimal_from-digits zero n = tt
decimal_from-digits (suc fuel) n = elim (Bool-cases (ltb n 10)) [
  | inl e ↦ rw e (digit-is_digit n (ground arith), tt)
  | inr e ↦ rw e (
      All-append (λ x. is_digit x ≡ true) (decimal_from fuel (n / 10)) ((48 + n % 10) ∷ [])
        (decimal_from-digits fuel (n / 10)) (digit-is_digit (n % 10) (omega arith), tt))
]

read_digits-decimal_from : (fuel n : ℕ) → n < fuel → read_digits 0 (decimal_from fuel n) ≡ n
unfolding decimal_from read_digits
read_digits-decimal_from zero n h = elim h [ ]
read_digits-decimal_from (suc fuel) n h = elim (Bool-cases (ltb n 10)) [
  | inl e ↦ rw (e, digit-is_digit n (ground arith)) (omega arith)
  | inr e ↦
      let ih = read_digits-decimal_from fuel (n / 10) (ground arith) in
      rw
        (
          e,
          read_digits-append 0 (decimal_from fuel (n / 10)) (48 + n % 10)
              (decimal_from-digits fuel (n / 10)) (digit-is_digit (n % 10) (omega arith)),
          ih,
        )
        (omega arith)
]

starts_digit-append : (xs ys : Text) → starts_digit xs ≡ true → starts_digit (xs ++ ys) ≡ true
unfolding starts_digit
starts_digit-append [] ys h = cc
starts_digit-append (x ∷ xs) ys h = h

decimal_from-starts : (fuel n : ℕ) → n < fuel → starts_digit (decimal_from fuel n) ≡ true
unfolding decimal_from
decimal_from-starts zero n h = elim h [ ]
decimal_from-starts (suc fuel) n h = elim (Bool-cases (ltb n 10)) [
  | inl e ↦ rw e (unfold starts_digit in digit-is_digit n (ground arith))
  | inr e ↦ rw e (
      starts_digit-append (decimal_from fuel (n / 10)) ((48 + n % 10) ∷ [])
        (decimal_from-starts fuel (n / 10) (ground arith)))
]

read_digit : (c : ℕ) → is_digit c ≡ true → (48 ≤ c) × (c ≤ 57)
unfolding is_digit
read_digit c h = ground arith

take_sign-digit : (t : Text) → starts_digit t ≡ true → take_sign (skip_blanks t) ≡ (false, t)
unfolding take_sign skip_blanks starts_digit
take_sign-digit [] h = cc
take_sign-digit (c ∷ cs) h = ground (arith, read_digit c h)

take_sign-minus : (t : Text) → take_sign (skip_blanks (45 ∷ t)) ≡ (true, t)
unfolding take_sign skip_blanks
take_sign-minus t = refl

read_number-decimal : (n : ℕ) → read_number (decimal n) ≡ some (false, n)
unfolding read_number decimal
read_number-decimal n =
    let t = decimal_from (suc n) n in
    let starts = decimal_from-starts (suc n) n (omega arith) in
    rw (take_sign-digit t starts, starts, read_digits-decimal_from (suc n) n (omega arith)) refl

read_number-minus : (n : ℕ) → read_number (45 ∷ decimal n) ≡ some (true, n)
unfolding read_number decimal
read_number-minus n =
    let t = decimal_from (suc n) n in
    let starts = decimal_from-starts (suc n) n (omega arith) in
    rw (take_sign-minus t, starts, read_digits-decimal_from (suc n) n (omega arith)) refl

-- Numbers in range are read back.
pub stoul-decimal : (n : ℕ) → n < 2 ^ 64 → stoul (decimal n) ≡ some n
unfolding stoul to_unsigned
stoul-decimal n h =
    let e : leb (2 ^ 64) n ≡ false = ground arith in
    ap (λ r. r >>= to_unsigned) (read_number-decimal n) ∙ (rw e refl)

pub stoi-show_int : (k : ℤ) → IsInt k → stoi (show_int k) ≡ some k
unfolding stoi show_int to_int
stoi-show_int (pos n) h =
    let e : leb (2 ^ 31) n ≡ false = ground arith in
    ap (λ r. r >>= to_int) (read_number-decimal n) ∙ (rw e refl)
stoi-show_int (negsuc n) h =
    let e : ltb (2 ^ 31) (suc n) ≡ false = ground arith in
    ap (λ r. r >>= to_int) (read_number-minus (suc n)) ∙ (rw e refl)
