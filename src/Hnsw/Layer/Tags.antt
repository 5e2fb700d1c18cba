-- ===== src/Hnsw/Layer/Tags.antt =====
-- src/hnsw.cpp: the thread's visit tags. A search starts with no node marked, whatever searches ran
-- before it, also when the uint16_t wraps.
use neuraldatabase.Prelude.{
  ℕ, ◌+◌, ◌-◌, ◌%◌, ◌^◌, ◌≤◌, ◌<◌, ◌≡◌, refl, subst, ℕ_discrete, ◌∙◌, sym, inl, inr, true, false,
  List, [], ◌∷◌, ◌++◌, arith, All, All-imp, All-append, All-set, All-replicate, All-get_or,
  Bool-cases, length, length-append, length-replicate, length-set, get_or, replicate, ltb, ◌==◌,
  if◌then◌else◌, ◌||◌,
}
use neuraldatabase.Float.{Float, float_lt}
use neuraldatabase.Hnsw.Layer.Results.{visited-mark_self, visited-mark_ne}
use neuraldatabase.Hnsw.Layer.{Scratch, next_tag, visited, mark, Beam, worst_of, consider, scan}

-- No entry passes the tag, as when a thread starts: an empty buffer, and tag 0.
pub record IsScratch (s : Scratch) : Type 0 where
  pub tag_fits : s.visit_tag < 2 ^ 16
  pub tags : All (λ t. t ≤ s.visit_tag) s.visited_buf

abbrev room : ℕ → List ℕ → List ℕ
room nv buf = if ltb (length buf) nv then buf ++ replicate (nv + 10000 - length buf) 0 else buf

length-room : (nv : ℕ) (buf : List ℕ) → nv ≤ length (room nv buf)
length-room nv buf = ground (
  arith,
  length-append buf (replicate (nv + 10000 - length buf) 0),
  length-replicate {A = ℕ} (nv + 10000 - length buf) 0,
)

All-room : (nv tag : ℕ) (buf : List ℕ) → All (λ t. t ≤ tag) buf → All (λ t. t ≤ tag) (room nv buf)
All-room nv tag buf h = elim (Bool-cases (ltb (length buf) nv)) [
  | inl e ↦ rw e (
      All-append (λ t. t ≤ tag) buf (replicate (nv + 10000 - length buf) 0) h
        (All-replicate (λ t. t ≤ tag) (nv + 10000 - length buf) 0 (omega arith)))
  | inr e ↦ rw e h
]

-- What the first lines of a search leave.
pub record IsFresh (nv : ℕ) (s : Scratch) : Type 0 where
  pub valid : IsScratch s
  pub roomy : nv ≤ length s.visited_buf
  pub unmarked : (n : ℕ) → visited s n ≡ false

pub next_tag-IsFresh : (nv : ℕ) (s : Scratch) → IsScratch s → IsFresh nv (next_tag nv s)
unfolding next_tag
next_tag-IsFresh nv s v =
    let buf = room nv s.visited_buf in
    let size = length-room nv s.visited_buf in
    let old = All-room nv s.visit_tag s.visited_buf v.tags in
    let fits = v.tag_fits in
    elim (Bool-cases ((s.visit_tag + 1) % 2 ^ 16 == 0)) [
      | inl wraps ↦ rw wraps (record {
        valid = record {
          tag_fits = omega arith;
          tags = All-replicate (λ t. t ≤ 1) (length buf) 0 (omega arith);
        };
        roomy = omega (arith, length-replicate {A = ℕ} (length buf) 0);
        unmarked = λ n.
            let z : get_or (replicate (length buf) 0) n 0 ≡ 0 =
              All-get_or (λ t. ◌≡◌ {A = ℕ} t 0) (replicate (length buf) 0) n 0 refl
                (All-replicate (λ t. ◌≡◌ {A = ℕ} t 0) (length buf) 0 refl) in
            rw z refl;
      })
      | inr next ↦
          let e : (s.visit_tag + 1) % 2 ^ 16 ≡ s.visit_tag + 1 = ground arith in
          rw next (record {
            valid = record {
              tag_fits = omega arith;
              tags =
                  All-imp (λ t. t ≤ s.visit_tag) (λ t. t ≤ (s.visit_tag + 1) % 2 ^ 16)
                    (λ t h. omega arith) buf old;
            };
            roomy = size;
            unmarked = λ n.
                let z : get_or buf n 0 ≤ s.visit_tag =
                  All-get_or (λ t. t ≤ s.visit_tag) buf n 0 (omega arith) old in
                ground arith;
          })
    ]

pub mark-IsScratch : (s : Scratch) (n : ℕ) → IsScratch s → IsScratch (mark s n)
mark-IsScratch s n v = record {
  tag_fits = v.tag_fits;
  tags = All-set (λ t. t ≤ s.visit_tag) s.visited_buf n s.visit_tag (omega arith) v.tags;
}

-- Two beams that a search cannot tell apart: their buffers mark the same nodes.
pub record Alike (nv : ℕ) (b b' : Beam) : Type 0 where
  pub cands : b.cands ≡ b'.cands
  pub results : b.results ≡ b'.results
  pub marks : (n : ℕ) → visited b.scratch n ≡ visited b'.scratch n
  pub roomy : nv ≤ length b.scratch.visited_buf
  pub roomy' : nv ≤ length b'.scratch.visited_buf

pub mark-marks :
    (s s' : Scratch) (m n : ℕ)
    → m < length s.visited_buf
    → m < length s'.visited_buf
    → visited s n ≡ visited s' n
    → visited (mark s m) n ≡ visited (mark s' m) n
mark-marks s s' m n r r' h = elim (ℕ_discrete m n) [
  | yes e ↦
      subst (λ k. visited (mark s m) k ≡ true) e (visited-mark_self s m r)
      ∙ sym (subst (λ k. visited (mark s' m) k ≡ true) e (visited-mark_self s' m r'))
  | no e ↦ visited-mark_ne s m n e ∙ h ∙ sym (visited-mark_ne s' m n e)
]

module _ (similarity : ℕ → Float) (neighbours : ℕ → List ℕ) (ef nv : ℕ) where
  consider-Alike :
      (b b' : Beam) (nb : ℕ)
      → nb < nv
      → Alike nv b b'
      → Alike nv (consider similarity neighbours ef b nb) (consider similarity neighbours ef b' nb)
  unfolding consider
  consider-Alike b b' nb lt a =
      let marks = λ (n : ℕ).
        mark-marks b.scratch b'.scratch nb n (omega (arith, a.roomy)) (omega (arith, a.roomy'))
          (a.marks n) in
      let size = length-set b.scratch.visited_buf nb b.scratch.visit_tag in
      let size' = length-set b'.scratch.visited_buf nb b'.scratch.visit_tag in
      elim (Bool-cases
        (float_lt (worst_of b'.results) (similarity nb) || ltb (length b'.results) ef)) [
          | inl e ↦
              rw (a.results, e, a.cands)
                (record {
                  cands = refl;
                  results = refl;
                  marks = marks;
                  roomy = omega (arith, a.roomy);
                  roomy' = omega (arith, a.roomy');
                })
          | inr e ↦
              rw (a.results, e, a.cands)
                (record {
                  cands = refl;
                  results = refl;
                  marks = marks;
                  roomy = omega (arith, a.roomy);
                  roomy' = omega (arith, a.roomy');
                })
        ]

  pub scan-Alike :
      (b b' : Beam) (nbs : List ℕ)
      → All (λ n. n < nv) nbs
      → Alike nv b b'
      → Alike nv (scan similarity neighbours ef b nbs) (scan similarity neighbours ef b' nbs)
  unfolding scan
  scan-Alike b b' [] h a = a
  scan-Alike b b' (nb ∷ nbs) h a = elim (Bool-cases (visited b'.scratch nb)) [
    | inl e ↦ rw (a.marks nb, e) (scan-Alike b b' nbs h.1 a)
    | inr e ↦
        rw (a.marks nb, e)
          (scan-Alike (consider similarity neighbours ef b nb)
            (consider similarity neighbours ef b' nb) nbs h.1 (consider-Alike b b' nb h.0 a))
  ]
