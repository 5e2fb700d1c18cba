-- ===== src/Paged/Contents.antt =====
-- src/paged_index.cpp: what `get` reads of the vectors that were pushed.
use neuraldatabase.Prelude.{
  ℕ, ◌+◌, ◌*◌, ◌/◌, ◌%◌, ◌<◌, ◌≤◌, ◌≡◌, ◌≢◌, refl, ◌∙◌, ◌⊎◌, inl, inr, Bool-cases, List, arith,
  length, ltb, ◌==◌, take_all,
}
use neuraldatabase.Bytes.{le_bytes, write_words, length-le_bytes, length-write_words}
use neuraldatabase.Float.{Float}
use neuraldatabase.Paged.{
  page_size, Page, zero_page, mapped, pwrite, vector_offset, write_vector, byte_at,
}
use neuraldatabase.Paged.Layout.{
  pwrite_inside, pwrite_before, pwrite_behind, vector_in_page, slots_apart,
}

-- the bytes of vector `slot` stand in the file
abbrev pub HasVector : (vpp dim : ℕ) → List ℕ → (slot : ℕ) → List Float → Type 0
HasVector vpp dim file slot vec =
    (k : ℕ)
    → k < dim * 4
    → byte_at file (vector_offset vpp dim slot + k) ≡ byte_at (write_words 4 vec) k

-- a cached page shows zeros, or the file
abbrev pub IsShown : List ℕ → ℕ × Page → Type 0
IsShown file (id, zero_page) = Unit
IsShown file (id, mapped bytes) =
    (k : ℕ) → k < page_size → byte_at bytes k ≡ byte_at file (id * page_size + k)

length-words :
    (dim : ℕ) (vec : List Float) → length vec ≡ dim → length (write_words 4 vec) ≡ dim * 4
length-words dim vec h = omega (arith, length-write_words 4 vec)

module _ (vpp dim : ℕ) (pos : 0 < vpp) (fits : vpp * dim * 4 ≤ 4088) where
  -- the header of the page takes its first four bytes
  past_header :
      (slot i : ℕ) (vec : List Float) (file : List ℕ)
      → length vec ≡ dim
      → (i < slot / vpp * page_size) ⊎ (slot / vpp * page_size + 4 ≤ i)
      → byte_at (write_vector vpp dim slot vec file) i
        ≡ byte_at (pwrite file (vector_offset vpp dim slot) (write_words 4 vec)) i
  unfolding write_vector
  past_header slot i vec file l away =
      let written = pwrite file (vector_offset vpp dim slot) (write_words 4 vec) in
      let header = le_bytes 4 (slot / vpp) in
      rw (take_all dim vec (omega arith)) (elim (Bool-cases (slot % vpp == 0)) [
        | inr e ↦ rw e refl
        | inl e ↦ rw e (elim away [
          | inl h ↦ pwrite_before written (slot / vpp * page_size) i header h
          | inr h ↦
              pwrite_behind written (slot / vpp * page_size) i header
                (omega (arith, length-le_bytes 4 (slot / vpp)))
        ])
      ])

  -- A write changes the bytes of its own page only.
  pub write_vector_elsewhere :
      (slot i : ℕ) (vec : List Float) (file : List ℕ)
      → length vec ≡ dim
      → (i < slot / vpp * page_size) ⊎ (slot / vpp * page_size + page_size ≤ i)
      → byte_at (write_vector vpp dim slot vec file) i ≡ byte_at file i
  unfolding vector_offset
  write_vector_elsewhere slot i vec file l away =
      let offset = vector_offset vpp dim slot in
      elim away [
        | inl h ↦
            past_header slot i vec file l (inl h)
            ∙ pwrite_before file offset i (write_words 4 vec) (omega arith)
        | inr h ↦
            past_header slot i vec file l (inr (omega arith))
            ∙ pwrite_behind file offset i (write_words 4 vec)
                (omega (arith, length-words dim vec l, vector_in_page vpp dim slot pos fits))
      ]

  pub write_vector_self :
      (slot : ℕ) (vec : List Float) (file : List ℕ)
      → length vec ≡ dim
      → HasVector vpp dim (write_vector vpp dim slot vec file) slot vec
  unfolding vector_offset
  write_vector_self slot vec file l k h =
      past_header slot (vector_offset vpp dim slot + k) vec file l (inr (omega arith))
      ∙ pwrite_inside file (vector_offset vpp dim slot) k (write_words 4 vec)
          (omega (arith, length-words dim vec l))

  -- a byte of slot `j` is none of the header of the page of `slot`
  off_header :
      (slot j k : ℕ)
      → k < dim * 4
      → (vector_offset vpp dim j + k < slot / vpp * page_size)
        ⊎ (slot / vpp * page_size + 4 ≤ vector_offset vpp dim j + k)
  unfolding vector_offset
  off_header slot j k h = elim (Bool-cases (ltb (j / vpp) (slot / vpp))) [
    | inl e ↦
        let up : j / vpp < slot / vpp = ground arith in
        inl (omega (arith, vector_in_page vpp dim j pos fits))
    | inr e ↦ let down : slot / vpp ≤ j / vpp = ground arith in inr (omega arith)
  ]

  pub write_vector_other :
      (slot j : ℕ) (vec other : List Float) (file : List ℕ)
      → length vec ≡ dim
      → j ≢ slot
      → HasVector vpp dim file j other
      → HasVector vpp dim (write_vector vpp dim slot vec file) j other
  write_vector_other slot j vec other file l ne h k lt =
      let i = vector_offset vpp dim j + k in
      let words = write_words 4 vec in
      let len = length-words dim vec l in
      past_header slot i vec file l (off_header slot j k lt)
      ∙ elim (slots_apart vpp dim j slot pos fits ne) [
        | inl b ↦ pwrite_before file (vector_offset vpp dim slot) i words (omega arith)
        | inr b ↦ pwrite_behind file (vector_offset vpp dim slot) i words (omega (arith, len))
      ]
      ∙ h k lt
