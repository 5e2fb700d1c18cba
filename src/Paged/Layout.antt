-- ===== src/Paged/Layout.antt =====
-- src/paged_index.cpp: which bytes of the file a write changes, and where the vectors lie.
use native.Mathlib.Nat.{mod-lt, div-add-mod'}
use neuraldatabase.Prelude.{
  ℕ, zero, suc, ◌+◌, ◌-◌, ◌*◌, ◌/◌, ◌%◌, ◌<◌, ◌≤◌, ◌≡◌, ◌≢◌, refl, sym, ap, ◌∙◌, ◌⊎◌, inl, inr,
  Bool-cases, List, [], ◌∷◌, ◌++◌, arith, length, get_or, take, drop, replicate, length-append,
  length-take, length-replicate, length-drop, max, row_fits, ltb, ℕ_discrete, All,
}
use neuraldatabase.Bytes.{le_bytes, write_words, Fits}
use neuraldatabase.Paged.{pwrite, byte_at, word_at, vector_offset}

byte_at-append_lt : (xs ys : List ℕ) (i : ℕ) → i < length xs → byte_at (xs ++ ys) i ≡ byte_at xs i
byte_at-append_lt [] ys i h = absurd (omega arith)
byte_at-append_lt (x ∷ xs) ys zero h = refl
byte_at-append_lt (x ∷ xs) ys (suc i) h = byte_at-append_lt xs ys i (omega arith)

byte_at-append_ge :
    (xs ys : List ℕ) (i : ℕ) → length xs ≤ i → byte_at (xs ++ ys) i ≡ byte_at ys (i - length xs)
byte_at-append_ge [] ys i h = ap (byte_at ys) (omega arith)
byte_at-append_ge (x ∷ xs) ys zero h = absurd (omega arith)
byte_at-append_ge (x ∷ xs) ys (suc i) h =
    byte_at-append_ge xs ys i (omega arith) ∙ ap (byte_at ys) (omega arith)

pub byte_at-take : (n : ℕ) (xs : List ℕ) (i : ℕ) → i < n → byte_at (take n xs) i ≡ byte_at xs i
byte_at-take zero xs i h = absurd (omega arith)
byte_at-take (suc n) [] i h = refl
byte_at-take (suc n) (x ∷ xs) zero h = refl
byte_at-take (suc n) (x ∷ xs) (suc i) h = byte_at-take n xs i (omega arith)

pub byte_at-drop : (n : ℕ) (xs : List ℕ) (i : ℕ) → byte_at (drop n xs) i ≡ byte_at xs (n + i)
byte_at-drop zero xs i = ap (byte_at xs) (omega arith)
byte_at-drop (suc n) [] i = refl
byte_at-drop (suc n) (x ∷ xs) i =
    byte_at-drop n xs i ∙ ap (byte_at (x ∷ xs)) {x = suc (n + i)} {y = suc n + i} (omega arith)

byte_at-pad : (xs : List ℕ) (n i : ℕ) → byte_at (xs ++ replicate n 0) i ≡ byte_at xs i
byte_at-pad [] zero i = refl
byte_at-pad [] (suc n) zero = refl
byte_at-pad [] (suc n) (suc i) = byte_at-pad [] n i
byte_at-pad (x ∷ xs) n zero = refl
byte_at-pad (x ∷ xs) n (suc i) = byte_at-pad xs n i

-- what stands in front of a write
before : List ℕ → ℕ → List ℕ
before file offset = take offset (file ++ replicate (offset - length file) 0)

length-before : (file : List ℕ) (offset : ℕ) → length (before file offset) ≡ offset
unfolding before
length-before file offset = omega (
  arith,
  length-take offset (file ++ replicate (offset - length file) 0),
  length-append file (replicate (offset - length file) 0),
  length-replicate {A = ℕ} (offset - length file) 0,
)

byte_at-before :
    (file : List ℕ) (offset i : ℕ) → i < offset → byte_at (before file offset) i ≡ byte_at file i
unfolding before
byte_at-before file offset i h =
    byte_at-take offset (file ++ replicate (offset - length file) 0) i h
    ∙ byte_at-pad file (offset - length file) i

pub length-pwrite :
    (file : List ℕ) (offset : ℕ) (bytes : List ℕ)
    → length (pwrite file offset bytes) ≡ max (length file) (offset + length bytes)
unfolding pwrite before
length-pwrite file offset bytes = omega (
  arith,
  length-append (before file offset) (bytes ++ drop (offset + length bytes) file),
  length-append bytes (drop (offset + length bytes) file),
  length-before file offset,
  length-drop (offset + length bytes) file,
)

pub pwrite_inside :
    (file : List ℕ) (offset i : ℕ) (bytes : List ℕ)
    → i < length bytes
    → byte_at (pwrite file offset bytes) (offset + i) ≡ byte_at bytes i
unfolding pwrite before
pwrite_inside file offset i bytes h =
    let l = length-before file offset in
    byte_at-append_ge (before file offset) (bytes ++ drop (offset + length bytes) file) (offset + i)
      (omega (arith, l))
    ∙ ap (byte_at (bytes ++ drop (offset + length bytes) file)) (omega (arith, l))
    ∙ byte_at-append_lt bytes (drop (offset + length bytes) file) i h

pub pwrite_before :
    (file : List ℕ) (offset i : ℕ) (bytes : List ℕ)
    → i < offset
    → byte_at (pwrite file offset bytes) i ≡ byte_at file i
unfolding pwrite before
pwrite_before file offset i bytes h =
    byte_at-append_lt (before file offset) (bytes ++ drop (offset + length bytes) file) i
      (omega (arith, length-before file offset))
    ∙ byte_at-before file offset i h

pub pwrite_behind :
    (file : List ℕ) (offset i : ℕ) (bytes : List ℕ)
    → offset + length bytes ≤ i
    → byte_at (pwrite file offset bytes) i ≡ byte_at file i
unfolding pwrite before
pwrite_behind file offset i bytes h =
    let l = length-before file offset in
    let rest = drop (offset + length bytes) file in
    byte_at-append_ge (before file offset) (bytes ++ rest) i (omega (arith, l))
    ∙ byte_at-append_ge bytes rest (i - length (before file offset)) (omega (arith, l))
    ∙ byte_at-drop (offset + length bytes) file (i - length (before file offset) - length bytes)
    ∙ ap (byte_at file) (omega (arith, l))

skip_word :
    (a b c d : ℕ) (rest : List ℕ) (n m : ℕ)
    → n ≡ suc (suc (suc (suc m)))
    → byte_at (a ∷ b ∷ c ∷ d ∷ rest) n ≡ byte_at rest m
skip_word a b c d rest n m h = ap (byte_at (a ∷ b ∷ c ∷ d ∷ rest)) h

-- Word `j` of an array is read back from its four bytes.
pub word_at-write_words :
    (ws : List ℕ) (j : ℕ)
    → All (Fits 4) ws
    → j < length ws
    → word_at (write_words 4 ws) (j * 4) ≡ get_or ws j 0
unfolding word_at write_words le_bytes
word_at-write_words [] j h l = absurd (omega arith)
word_at-write_words (w ∷ ws) zero h l =
    let fits : w / 256 / 256 / 256 / 256 ≡ 0 = h.0 in
    let e : w % 256
          + 256 * (w / 256 % 256 + 256 * (w / 256 / 256 % 256 + 256 * (w / 256 / 256 / 256 % 256)))
        ≡ w =
      omega arith in
    e
word_at-write_words (w ∷ ws) (suc j) h l =
    let skip =
      skip_word (w % 256) (w / 256 % 256) (w / 256 / 256 % 256) (w / 256 / 256 / 256 % 256)
        (write_words 4 ws) in
    rw
      (
        skip (suc j * 4) (j * 4) (omega arith),
        skip (suc j * 4 + 1) (j * 4 + 1) (omega arith),
        skip (suc j * 4 + 2) (j * 4 + 2) (omega arith),
        skip (suc j * 4 + 3) (j * 4 + 3) (omega arith),
      )
      (word_at-write_words ws j h.1 (omega arith))

-- A vector lies in its page, behind the header.
pub vector_in_page :
    (vpp dim slot : ℕ) → 0 < vpp → vpp * dim * 4 ≤ 4088 → slot % vpp * dim * 4 + dim * 4 ≤ 4088
vector_in_page vpp dim slot pos fits =
    omega (arith, row_fits vpp (slot % vpp) dim (mod-lt slot pos))

-- Two slots share no byte.
pub slots_apart :
    (vpp dim a b : ℕ)
    → 0 < vpp
    → vpp * dim * 4 ≤ 4088
    → a ≢ b
    → (vector_offset vpp dim a + dim * 4 ≤ vector_offset vpp dim b)
      ⊎ (vector_offset vpp dim b + dim * 4 ≤ vector_offset vpp dim a)
unfolding vector_offset
slots_apart vpp dim a b pos fits ne = elim (ℕ_discrete (a / vpp) (b / vpp)) [
  | no o ↦ elim (Bool-cases (ltb (a / vpp) (b / vpp))) [
    | inl l ↦
        let up : a / vpp < b / vpp = ground arith in
        inl (omega (arith, vector_in_page vpp dim a pos fits))
    | inr l ↦
        let down : b / vpp < a / vpp = ground arith in
        inr (omega (arith, vector_in_page vpp dim b pos fits))
  ]
  | yes e ↦
      let other : a % vpp ≢ b % vpp = λ r. ne (
        sym (div-add-mod' a vpp)
        ∙ ap (λ q. q * vpp + a % vpp) e
        ∙ ap (λ q. b / vpp * vpp + q) r
        ∙ div-add-mod' b vpp) in
      elim (Bool-cases (ltb (a % vpp) (b % vpp))) [
        | inl l ↦
            let up : a % vpp < b % vpp = ground arith in
            inl (omega (arith, row_fits (b % vpp) (a % vpp) dim up))
        | inr l ↦
            let down : b % vpp < a % vpp = ground arith in
            inr (omega (arith, row_fits (a % vpp) (b % vpp) dim down))
      ]
]
