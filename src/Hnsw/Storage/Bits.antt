-- ===== src/Hnsw/Storage/Bits.antt =====
-- src/hnsw.cpp: the tombstones as bits of 64-bit words.
use neuraldatabase.Prelude.{
  ℕ, zero, suc, ◌+◌, ◌*◌, ◌/◌, ◌%◌, ◌^◌, ◌<◌, ◌≤◌, ◌≡◌, ◌≢◌, refl, ap, inl, inr, Bool, true, false,
  List, [], ◌∷◌, arith, if◌then◌else◌, length, get_or, All, Bool-cases, length-set, get_or-set_self,
  get_or-set_ne, ℕ_discrete, ◌∙◌, drop, replicate, drop_all, length-replicate, get_or-replicate,
  All-set, All-get_or,
}
use neuraldatabase.Hnsw.Storage.{test_bit, set_bit, mark_bit, pack, unpack}
use native.Mathlib.Omega.{pow_step}

test_bit-set_bit_self : (j w : ℕ) → test_bit (set_bit w j) j ≡ true
unfolding test_bit set_bit
test_bit-set_bit_self zero w = ground arith
test_bit-set_bit_self (suc j) w =
    let e : (w % 2 + 2 * set_bit (w / 2) j) / 2 ≡ set_bit (w / 2) j = omega arith in
    rw e (test_bit-set_bit_self j (w / 2))

test_bit-set_bit_ne : (i j w : ℕ) → i ≢ j → test_bit (set_bit w j) i ≡ test_bit w i
unfolding test_bit set_bit
test_bit-set_bit_ne zero zero w h = absurd (h refl)
test_bit-set_bit_ne zero (suc j) w h =
    let e : (w % 2 + 2 * set_bit (w / 2) j) % 2 ≡ w % 2 = omega arith in rw e refl
test_bit-set_bit_ne (suc i) zero w h =
    let e : (w / 2 * 2 + 1) / 2 ≡ w / 2 = omega arith in rw e refl
test_bit-set_bit_ne (suc i) (suc j) w h =
    let e : (w % 2 + 2 * set_bit (w / 2) j) / 2 ≡ set_bit (w / 2) j = omega arith in
    rw e (test_bit-set_bit_ne i j (w / 2) (λ k. h (ap suc k)))

-- A bit below `n` keeps a word within `n` bits.
set_bit_lt : (n j w : ℕ) → w < 2 ^ n → j < n → set_bit w j < 2 ^ n
unfolding set_bit
set_bit_lt zero j w h l = absurd (omega arith)
set_bit_lt (suc n) zero w h l = omega (arith, pow_step 2 n)
set_bit_lt (suc n) (suc j) w h l =
    let half : w / 2 < 2 ^ n = omega (arith, pow_step 2 n) in
    omega (arith, pow_step 2 n, set_bit_lt n j (w / 2) half (omega arith))

pub long-set_bit : (w j : ℕ) → w < 2 ^ 64 → set_bit w (j % 64) < 2 ^ 64
long-set_bit w j h = set_bit_lt 64 (j % 64) w h (omega arith)

-- bit `j` of the whole array
abbrev pub bit_at : List ℕ → ℕ → Bool
bit_at tbits j = test_bit (get_or tbits (j / 64) 0) (j % 64)

bit_at-mark_bit_self :
    (tbits : List ℕ) (i : ℕ) → i / 64 < length tbits → bit_at (mark_bit tbits i) i ≡ true
unfolding mark_bit
bit_at-mark_bit_self tbits i h =
    rw (get_or-set_self tbits (i / 64) (set_bit (get_or tbits (i / 64) 0) (i % 64)) 0 h)
      (test_bit-set_bit_self (i % 64) (get_or tbits (i / 64) 0))

bit_at-mark_bit_ne :
    (tbits : List ℕ) (i j : ℕ)
    → i / 64 < length tbits
    → i ≢ j
    → bit_at (mark_bit tbits i) j ≡ bit_at tbits j
unfolding mark_bit
bit_at-mark_bit_ne tbits i j h ne = elim (ℕ_discrete (i / 64) (j / 64)) [
  | yes e ↦ rw (← e) (
      rw (get_or-set_self tbits (i / 64) (set_bit (get_or tbits (i / 64) 0) (i % 64)) 0 h)
        (test_bit-set_bit_ne (j % 64) (i % 64) (get_or tbits (i / 64) 0) (λ k. ne (omega arith))))
  | no o ↦
      rw (get_or-set_ne tbits (i / 64) (j / 64) (set_bit (get_or tbits (i / 64) 0) (i % 64)) 0 o)
        refl
]

length-mark_bit : (tbits : List ℕ) (i : ℕ) → length (mark_bit tbits i) ≡ length tbits
unfolding mark_bit
length-mark_bit tbits i = length-set tbits (i / 64) (set_bit (get_or tbits (i / 64) 0) (i % 64))

-- one round of `pack`
abbrev stamped : List Bool → ℕ → List ℕ → List ℕ
stamped t i tbits = if get_or t i false then mark_bit tbits i else tbits

length-stamped :
    (t : List Bool) (i : ℕ) (tbits : List ℕ) → length (stamped t i tbits) ≡ length tbits
length-stamped t i tbits = ground (arith, length-mark_bit tbits i)

pub length-pack :
    (t : List Bool) (i n : ℕ) (tbits : List ℕ) → length (pack t i n tbits) ≡ length tbits
unfolding pack
length-pack t i zero tbits = refl
length-pack t i (suc n) tbits =
    omega (arith, length-pack t (i + 1) n (stamped t i tbits), length-stamped t i tbits)

bit_at-stamped_ne :
    (t : List Bool) (i j : ℕ) (tbits : List ℕ)
    → i / 64 < length tbits
    → i ≢ j
    → bit_at (stamped t i tbits) j ≡ bit_at tbits j
bit_at-stamped_ne t i j tbits h ne = elim (Bool-cases (get_or t i false)) [
  | inl e ↦ rw e (bit_at-mark_bit_ne tbits i j h ne)
  | inr e ↦ rw e refl
]

bit_at-stamped_self :
    (t : List Bool) (i : ℕ) (tbits : List ℕ)
    → i / 64 < length tbits
    → bit_at tbits i ≡ false
    → bit_at (stamped t i tbits) i ≡ get_or t i false
bit_at-stamped_self t i tbits h clear = elim (Bool-cases (get_or t i false)) [
  | inl e ↦ rw e (bit_at-mark_bit_self tbits i h)
  | inr e ↦ rw e clear
]

-- The rounds from `i` on leave the bits below `i`.
bit_at-pack_lt :
    (t : List Bool) (i n j : ℕ) (tbits : List ℕ)
    → i + n ≤ 64 * length tbits
    → j < i
    → bit_at (pack t i n tbits) j ≡ bit_at tbits j
unfolding pack
bit_at-pack_lt t i zero j tbits h l = refl
bit_at-pack_lt t i (suc n) j tbits h l =
    bit_at-pack_lt t (i + 1) n j (stamped t i tbits) (omega (arith, length-stamped t i tbits))
      (omega arith)
    ∙ bit_at-stamped_ne t i j tbits (omega arith) (λ e. omega arith)

bit_at-pack :
    (t : List Bool) (i n j : ℕ) (tbits : List ℕ)
    → i + n ≤ 64 * length tbits
    → i ≤ j
    → j < i + n
    → bit_at tbits j ≡ false
    → bit_at (pack t i n tbits) j ≡ get_or t j false
unfolding pack
bit_at-pack t i zero j tbits h l u clear = absurd (omega arith)
bit_at-pack t i (suc n) j tbits h l u clear = elim (ℕ_discrete i j) [
  | yes e ↦ rw (← e) (
      bit_at-pack_lt t (i + 1) n i (stamped t i tbits) (omega (arith, length-stamped t i tbits))
        (omega arith)
      ∙ bit_at-stamped_self t i tbits (omega arith) (rw (← e) at clear))
  | no o ↦
      bit_at-pack t (i + 1) n j (stamped t i tbits) (omega (arith, length-stamped t i tbits))
        (omega arith) (omega arith) (bit_at-stamped_ne t i j tbits (omega arith) o ∙ clear)
]

drop-get_or : (t : List Bool) (i : ℕ) → i < length t → drop i t ≡ get_or t i false ∷ drop (i + 1) t
drop-get_or [] i h = absurd (omega arith)
drop-get_or (b ∷ t) zero h = refl
drop-get_or (b ∷ t) (suc i) h =
    let e : suc i + 1 ≡ suc (i + 1) = omega arith in rw e (drop-get_or t i (omega arith))

unpack-drop :
    (t : List Bool) (tbits : List ℕ) (i n : ℕ)
    → i + n ≡ length t
    → ((j : ℕ) → i ≤ j → j < i + n → bit_at tbits j ≡ get_or t j false)
    → unpack tbits i n ≡ drop i t
unfolding unpack
unpack-drop t tbits i zero h bits = ground (arith, drop_all i t (omega arith))
unpack-drop t tbits i (suc n) h bits =
    rw
      (
        drop-get_or t i (omega arith),
        bits i (omega arith) (omega arith),
        unpack-drop t tbits (i + 1) n (omega arith) (λ j l u. bits j (omega arith) (omega arith)),
      )
      refl

test_bit-zero : (j : ℕ) → test_bit 0 j ≡ false
unfolding test_bit
test_bit-zero zero = refl
test_bit-zero (suc j) = test_bit-zero j

-- The tombstones are the bits that were packed.
pub unpack-pack :
    (t : List Bool)
    → unpack (pack t 0 (length t) (replicate ((length t + 63) / 64) 0)) 0 (length t) ≡ t
unpack-pack t =
    let words : List ℕ = replicate ((length t + 63) / 64) 0 in
    let size : length words ≡ (length t + 63) / 64 = length-replicate ((length t + 63) / 64) 0 in
    unpack-drop t (pack t 0 (length t) words) 0 (length t) (omega arith) λ j l u.
      bit_at-pack t 0 (length t) j words (omega arith) l u
        (rw (get_or-replicate {A = ℕ} ((length t + 63) / 64) (j / 64) 0) (test_bit-zero (j % 64)))

-- Every word packed fits 64 bits.
pub pack-All :
    (t : List Bool) (i n : ℕ) (tbits : List ℕ)
    → All (λ w. w < 2 ^ 64) tbits
    → All (λ w. w < 2 ^ 64) (pack t i n tbits)
unfolding pack mark_bit
pack-All t i zero tbits h = h
pack-All t i (suc n) tbits h =
    pack-All t (i + 1) n (stamped t i tbits) (elim (Bool-cases (get_or t i false)) [
      | inl e ↦ rw e (
          All-set (λ w. w < 2 ^ 64) tbits (i / 64) (set_bit (get_or tbits (i / 64) 0) (i % 64))
            (long-set_bit (get_or tbits (i / 64) 0) i
              (All-get_or (λ w. w < 2 ^ 64) tbits (i / 64) 0 (omega arith) h))
            h)
      | inr e ↦ rw e h
    ])
