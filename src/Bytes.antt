-- ===== src/Bytes.antt =====
-- Files as lists of bytes: what `fwrite` of an integer or of an array of words puts there on a
-- little-endian machine, and what `fread` takes from it.
pub mod Strict
use neuraldatabase.Prelude.{
  ℕ, zero, suc, ◌+◌, ◌*◌, ◌/◌, ◌%◌, ◌^◌, ◌<◌, ◌≤◌, ◌≡◌, refl, ap, Option, none, some, List, [], ◌∷◌,
  ◌++◌, append_assoc, arith, length, take, All, length-append, min, ◌-◌, drop,
}

infixl 5 ◌>>=◌
abbrev pub ◌>>=◌ {ℓ κ} : {A : Type ℓ} {B : Type κ} → Option A → (A → Option B) → Option B
none >>= f = none
some a >>= f = f a

-- the `k` low bytes of `n`, the lowest first
unfoldable pub le_bytes : ℕ → ℕ → List ℕ
le_bytes zero n = []
le_bytes (suc k) n = n % 256 ∷ le_bytes k (n / 256)

unfoldable pub of_le_bytes : List ℕ → ℕ
of_le_bytes [] = 0
of_le_bytes (b ∷ bs) = b + 256 * of_le_bytes bs

-- `fread(p, 1, n, fp)`: exactly `n` bytes and what is left, or `none` where fewer are left.
unfoldable pub fread : ℕ → List ℕ → Option (List ℕ × List ℕ)
fread zero bs = some ([], bs)
fread (suc n) [] = none
fread (suc n) (b ∷ bs) = do (got, rest) ← fread n bs; some (b ∷ got, rest)

-- an integer of `k` bytes
unfoldable pub read_int : ℕ → List ℕ → Option (ℕ × List ℕ)
read_int k bs = do (got, rest) ← fread k bs; some (of_le_bytes got, rest)

-- an array of words of `k` bytes each
unfoldable pub write_words : ℕ → List ℕ → List ℕ
write_words k [] = []
write_words k (w ∷ ws) = le_bytes k w ++ write_words k ws

unfoldable pub read_words : ℕ → ℕ → List ℕ → Option (List ℕ × List ℕ)
read_words k zero bs = some ([], bs)
read_words k (suc n) bs = do
  (w, rest) ← read_int k bs
  (ws, rest') ← read_words k n rest
  some (w ∷ ws, rest')

pub length-le_bytes : (k n : ℕ) → length (le_bytes k n) ≡ k
unfolding le_bytes
length-le_bytes zero n = refl
length-le_bytes (suc k) n = ap suc (length-le_bytes k (n / 256))

-- the values that fit `k` bytes
abbrev pub Fits : ℕ → ℕ → Type 0
Fits zero n = n ≡ 0
Fits (suc k) n = Fits k (n / 256)

pub of_le_bytes-le_bytes : (k n : ℕ) → Fits k n → of_le_bytes (le_bytes k n) ≡ n
unfolding le_bytes of_le_bytes
of_le_bytes-le_bytes zero n h = omega arith
of_le_bytes-le_bytes (suc k) n h = omega (arith, of_le_bytes-le_bytes k (n / 256) h)

pub word-Fits : (n : ℕ) → n < 2 ^ 32 → Fits 4 n
word-Fits n h = omega arith

pub long-Fits : (n : ℕ) → n < 2 ^ 64 → Fits 8 n
long-Fits n h = omega arith

pub fread-append : (bs rest : List ℕ) → fread (length bs) (bs ++ rest) ≡ some (bs, rest)
unfolding fread
fread-append [] rest = refl
fread-append (b ∷ bs) rest = ground (arith, fread-append bs rest)

pub fread_short : (n : ℕ) (bs : List ℕ) → length bs < n → fread n bs ≡ none
unfolding fread
fread_short zero bs h = elim h [ ]
fread_short (suc n) [] h = refl
fread_short (suc n) (b ∷ bs) h = ground (arith, fread_short n bs)

pub fread-bytes :
    (k : ℕ) (bs rest : List ℕ) → length bs ≡ k → fread k (bs ++ rest) ≡ some (bs, rest)
fread-bytes k bs rest h = ground (arith, fread-append bs rest)

-- An integer that fits is read back as it was written, whatever follows it.
pub read_int-le_bytes :
    (k n : ℕ) (rest : List ℕ) → Fits k n → read_int k (le_bytes k n ++ rest) ≡ some (n, rest)
unfolding read_int
read_int-le_bytes k n rest h =
    ground
      (arith, fread-bytes k (le_bytes k n) rest (length-le_bytes k n), of_le_bytes-le_bytes k n h)

pub read_int_short : (k : ℕ) (bs : List ℕ) → length bs < k → read_int k bs ≡ none
unfolding read_int
read_int_short k bs h = ground (arith, fread_short k bs)

pub length-write_words : (k : ℕ) (ws : List ℕ) → length (write_words k ws) ≡ k * length ws
unfolding write_words
length-write_words k [] = omega arith
length-write_words k (w ∷ ws) = omega (
  arith,
  length-append (le_bytes k w) (write_words k ws),
  length-le_bytes k w,
  length-write_words k ws,
)

pub read_words-write_words :
    (k : ℕ) (ws rest : List ℕ)
    → All (Fits k) ws
    → read_words k (length ws) (write_words k ws ++ rest) ≡ some (ws, rest)
unfolding read_words write_words
read_words-write_words k [] rest h = refl
read_words-write_words k (w ∷ ws) rest h = ground (
  arith,
  append_assoc (le_bytes k w) (write_words k ws) rest,
  read_int-le_bytes k w (write_words k ws ++ rest) h.0,
  read_words-write_words k ws rest h.1,
)
