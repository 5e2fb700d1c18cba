-- ===== src/Storage/Reading.antt =====
-- src/storage.cpp: a short write leaves a prefix in the file, and no failure of a reader leaks.
use neuraldatabase.Prelude.{
  ℕ, ◌≤◌, ◌<◌, ◌≡◌, refl, sym, ◌⊎◌, ◌-◌, ◌+◌, take, take-append, take-append_ge, ◌∙◌, ap, Bool,
  true, false, ◌&&◌, List, [], ◌∷◌, ◌++◌, append_assoc, append-nil, arith, Bool-cases, inl, inr,
  ltb, leb, length, take_all, length-append,
}
use neuraldatabase.Storage.{
  Outcome, ok, throws, Process, MmapReader, FileWriter, open_reader, close_reader, write_raw,
  write_calls,
}

-- the bytes of calls, in order
abbrev pub bytes_of : List (ℕ × List ℕ) → List ℕ
bytes_of [] = []
bytes_of ((_, bytes) ∷ rest) = bytes ++ bytes_of rest

-- The stream got the first `n` bytes, and all of them unless a call threw.
abbrev pub IsPrefix : List ℕ → List ℕ → ℕ → Outcome (Unit {0}) × FileWriter → Type 0
IsPrefix before bytes n (done, w) =
    (w.written ≡ before ++ take n bytes) × ((done ≡ throws) ⊎ ((done ≡ ok tt) × (n ≡ length bytes)))

-- However many bytes fwrite takes of each call, the stream gets what it held before and a prefix of
-- the bytes of the calls, and all of them if no call throws.
pub write_calls-IsPrefix :
    (calls : List (ℕ × List ℕ)) (w : FileWriter)
    → (n : ℕ) × IsPrefix w.written (bytes_of calls) n (write_calls calls w)
unfolding write_calls write_raw
write_calls-IsPrefix [] w = (0, (sym (append-nil w.written), inr (refl, refl)))
write_calls-IsPrefix ((accepted, bytes) ∷ rest) w =
    elim (Bool-cases (leb (length bytes) accepted)) [
      | inl e ↦
          let fits : length bytes ≤ accepted = ground arith in
          let (n, (written, result)) =
            write_calls-IsPrefix rest (record { written = w.written ++ bytes }) in
          let left : length bytes + n - length bytes ≡ n = omega arith in
          (
            length bytes + n,
            rw (write_calls, write_raw, e, take_all accepted bytes fits)
                (
                  written
                      ∙ append_assoc w.written bytes (take n (bytes_of rest))
                      ∙ ap (λ x. w.written ++ x)
                          (sym (
                            take-append_ge (length bytes + n) bytes (bytes_of rest) (omega arith)
                            ∙ ap (λ m. bytes ++ take m (bytes_of rest)) left)),
                  elim result [
                    | inl t ↦ inl t
                    | inr (o, m) ↦ inr (o, omega (arith, m, length-append bytes (bytes_of rest)))
                  ],
                ),
          )
      | inr e ↦
          let short : accepted ≤ length bytes = ground arith in
          (
            accepted,
            rw (write_calls, write_raw, e)
                (
                  ap (λ x. w.written ++ x) (sym (take-append accepted bytes (bytes_of rest) short)),
                  inl refl,
                ),
          )
    ]

-- What a reader leaves of the process: its file and what its destructor gives back, or nothing.
abbrev pub IsClean : List ℕ → Process → Outcome MmapReader × Process → Type 0
IsClean file p (ok r, p') =
    (r.bytes ≡ file) × (r.size ≡ length file) × (0 < r.size) × (close_reader p' ≡ p)
IsClean file p (throws, p') = p' ≡ p

-- Whatever the system answers, the constructor of a reader either gives the whole file, of one byte
-- at least, and the destructor leaves the process as it was before, or it throws and the process is
-- as it was: no descriptor and no mapping is leaked.
pub open_reader-IsClean :
    (opens maps : Bool) (file : List ℕ) (p : Process)
    → IsClean file p (open_reader opens maps file p)
unfolding open_reader close_reader
open_reader-IsClean false maps file p = refl
open_reader-IsClean true maps file p = elim (Bool-cases (maps && ltb 0 (length file))) [
  | inl e ↦ rw e (refl, refl, ground arith, ground arith)
  | inr e ↦ rw e (ground arith)
]
