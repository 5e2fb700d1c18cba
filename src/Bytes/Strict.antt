-- ===== src/Bytes/Strict.antt =====
-- Readers that take a definite run of bytes: with less of it they fail, and what follows it does
-- not matter.
use neuraldatabase.Prelude.{
  ℕ, zero, suc, ◌-◌, ◌<◌, ◌≡◌, inl, inr, refl, sym, ◌∙◌, ap, Option, none, some, List, [], ◌∷◌,
  ◌++◌, append_assoc, arith, length, take, length-append, Option-cases, ltb, Bool-cases,
  take-append, take-append_ge,
}
use neuraldatabase.Bytes.{◌>>=◌, of_le_bytes, fread, read_int, read_words}

abbrev pub Reader : Type 0 → Type 0
Reader A = List ℕ → Option (A × List ℕ)

-- What a reader that succeeds has taken.
pub record Taken {A : Type 0} (p : Reader A) (bs : List ℕ) (a : A) (rest : List ℕ) : Type 0 where
  pub used : List ℕ
  pub split : bs ≡ used ++ rest
  pub truncated : (n : ℕ) → n < length used → p (take n used) ≡ none
  pub extended : (more : List ℕ) → p (used ++ more) ≡ some (a, more)

pub record IsStrict {A : Type 0} (p : Reader A) : Type 0 where
  pub takes : (bs : List ℕ) (a : A) (rest : List ℕ) → p bs ≡ some (a, rest) → Taken p bs a rest

abbrev pub done : {A : Type 0} → A → Reader A
done a bs = some (a, bs)

abbrev pub after : {A B : Type 0} → Reader A → (A → Reader B) → Reader B
after p f bs = do (a, rest) ← p bs; f a rest

pub done-IsStrict : {A : Type 0} (a : A) → IsStrict (done a)
done-IsStrict a = record {
  takes = λ bs b rest h. record {
    used = [];
    split = ground arith;
    truncated = λ n short. absurd (omega arith);
    extended = λ more. ground arith;
  };
}

module _ {A B : Type 0} (p : Reader A) (f : A → Reader B) where
  after-Taken :
      {bs r rest : List ℕ} {a : A} {b : B}
      → Taken p bs a r
      → Taken (f a) r b rest
      → Taken (after p f) bs b rest
  after-Taken {bs} {r} {rest} {a} {b} t u = record {
    used = t.used ++ u.used;
    split = t.split ∙ ap (◌++◌ t.used) u.split ∙ sym (append_assoc t.used u.used rest);
    truncated = λ n short. elim (Bool-cases (ltb n (length t.used))) [
      | inl first ↦
          let e : take n (t.used ++ u.used) ≡ take n t.used =
            take-append n t.used u.used (ground arith) in
          ground (arith, t.truncated n)
      | inr second ↦
          let k : ℕ = n - length t.used in
          let e : take n (t.used ++ u.used) ≡ t.used ++ take k u.used =
            take-append_ge n t.used u.used (ground arith) in
          ground (arith, t.extended (take k u.used), u.truncated k, length-append t.used u.used)
    ];
    extended = λ more.
        rw (append_assoc t.used u.used more)
          (ground (arith, t.extended (u.used ++ more), u.extended more));
  }

  pub after-IsStrict : IsStrict p → ((a : A) → IsStrict (f a)) → IsStrict (after p f)
  after-IsStrict hp hf = record {
    takes = λ bs b rest h. elim (Option-cases (p bs)) [
      | inl e ↦ absurd (ground arith)
      | inr ((a, r), e) ↦ after-Taken (hp.takes bs a r e) ((hf a).takes r b rest (ground arith))
    ];
  }

pub fread-IsStrict : (n : ℕ) → IsStrict (fread n)
unfolding fread
fread-IsStrict zero = done-IsStrict []
fread-IsStrict (suc n) = record {
  takes = λ bs got rest h. byte_then n bs got rest (fread-IsStrict n) h;
}
  where
    byte_then :
        (n : ℕ) (bs got rest : List ℕ)
        → IsStrict (fread n)
        → fread (suc n) bs ≡ some (got, rest)
        → Taken (fread (suc n)) bs got rest
    byte_then n [] got rest ih h = absurd (ground arith)
    byte_then n (b ∷ bs) got rest ih h = elim (Option-cases (fread n bs)) [
      | inl e ↦ absurd (ground arith)
      | inr ((more, r), e) ↦
          let t = ih.takes bs more r e in
          record {
            used = b ∷ t.used;
            split = ground (arith, t.split);
            truncated = elim [
              | zero ↦ λ short. refl
              | suc m ↦ λ short. ground (arith, t.truncated m)
            ];
            extended = λ tail. ground (arith, t.extended tail);
          }
    ]

pub read_int-IsStrict : (k : ℕ) → IsStrict (read_int k)
unfolding read_int
read_int-IsStrict k =
    after-IsStrict (fread k) (λ got. done (of_le_bytes got)) (fread-IsStrict k)
      (λ got. done-IsStrict (of_le_bytes got))

pub read_words-IsStrict : (k n : ℕ) → IsStrict (read_words k n)
unfolding read_words
read_words-IsStrict k zero = done-IsStrict []
read_words-IsStrict k (suc n) =
    after-IsStrict (read_int k) (λ w. after (read_words k n) (λ ws. done (w ∷ ws)))
      (read_int-IsStrict k)
      λ w.
        after-IsStrict (read_words k n) (λ ws. done (w ∷ ws)) (read_words-IsStrict k n)
          (λ ws. done-IsStrict (w ∷ ws))
