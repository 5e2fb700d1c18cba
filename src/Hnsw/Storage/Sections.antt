-- ===== src/Hnsw/Storage/Sections.antt =====
-- src/hnsw.cpp: each section of a saved file is read back, whatever follows it and whatever the
-- target held.
use neuraldatabase.Prelude.{
  ℕ, ◌-◌, ◌%◌, ◌^◌, ◌<◌, ◌≡◌, refl, sym, ◌∙◌, List, [], ◌∷◌, ◌++◌, append_assoc, arith, length,
  take, replicate, All, length-append, length-take, length-replicate, take_all,
}
use neuraldatabase.Bytes.{
  le_bytes, write_words, Fits, word-Fits, length-le_bytes, of_le_bytes-le_bytes,
}
use neuraldatabase.Hnsw.State.{Graph}
use neuraldatabase.Hnsw.Storage.{
  resize, rread, rread_int, rread_words, write_texts, write_layers, write_nodes, read_texts,
  read_layers, read_nodes,
}

pub length-resize : {A : Type 0} (n : ℕ) (a : A) (xs : List A) → length (resize n a xs) ≡ n
unfolding resize
length-resize n a xs = omega (
  arith,
  length-append (take n xs) (replicate (n - length xs) a),
  length-take n xs,
  length-replicate (n - length xs) a,
)

rread-append : (old bs rest : List ℕ) → length old ≡ length bs → rread old (bs ++ rest) ≡ (bs, rest)
unfolding rread
rread-append [] [] rest h = refl
rread-append [] (b ∷ bs) rest h = absurd (omega arith)
rread-append (o ∷ old) [] rest h = absurd (omega arith)
rread-append (o ∷ old) (b ∷ bs) rest h = rw (rread-append old bs rest (omega arith)) refl

pub rread_int-le_bytes :
    (k old n : ℕ) (rest : List ℕ) → Fits k n → rread_int k old (le_bytes k n ++ rest) ≡ (n, rest)
unfolding rread_int
rread_int-le_bytes k old n rest h =
    rw
      (
        rread-append (le_bytes k old) (le_bytes k n) rest
            (length-le_bytes k old ∙ sym (length-le_bytes k n)),
        of_le_bytes-le_bytes k n h,
      )
      refl

pub rread_words-write_words :
    (k : ℕ) (old ws rest : List ℕ)
    → length old ≡ length ws
    → All (Fits k) ws
    → rread_words k old (write_words k ws ++ rest) ≡ (ws, rest)
unfolding rread_words write_words
rread_words-write_words k [] [] rest e h = refl
rread_words-write_words k [] (w ∷ ws) rest e h = absurd (omega arith)
rread_words-write_words k (o ∷ old) [] rest e h = absurd (omega arith)
rread_words-write_words k (o ∷ old) (w ∷ ws) rest e h =
    rw
      (
        append_assoc (le_bytes k w) (write_words k ws) rest,
        rread_int-le_bytes k o w (write_words k ws ++ rest) h.0,
        rread_words-write_words k old ws rest (omega arith) h.1,
      )
      refl

-- a size that fits its 32 bits, and a list of such words
abbrev pub IsSize : ℕ → Type 0
IsSize n = n < 2 ^ 32

abbrev pub IsText : List ℕ → Type 0
IsText text = IsSize (length text)

abbrev pub IsLayer : List ℕ → Type 0
IsLayer nbs = IsSize (length nbs) × All (Fits 4) nbs

abbrev pub IsNode : List (List ℕ) → Type 0
IsNode layers = IsSize (length layers) × All IsLayer layers

modulo_size : (n : ℕ) → IsSize n → n % 2 ^ 32 ≡ n
modulo_size n h = omega arith

module _ (unset : ℕ) where
  pub read_texts-write_texts :
      (old texts : List (List ℕ)) (rest : List ℕ)
      → length old ≡ length texts
      → All IsText texts
      → read_texts unset old (write_texts texts ++ rest) ≡ (texts, rest)
  unfolding read_texts write_texts
  read_texts-write_texts [] [] rest e h = refl
  read_texts-write_texts [] (t ∷ texts) rest e h = absurd (omega arith)
  read_texts-write_texts (o ∷ old) [] rest e h = absurd (omega arith)
  read_texts-write_texts (o ∷ old) (t ∷ texts) rest e h =
      rw
        (
          modulo_size (length t) h.0,
          take_all (length t) t (omega arith),
          append_assoc (le_bytes 4 (length t)) (t ++ write_texts texts) rest,
          append_assoc t (write_texts texts) rest,
          rread_int-le_bytes 4 unset (length t) (t ++ (write_texts texts ++ rest))
              (word-Fits (length t) h.0),
          rread-append (resize (length t) 0 o) t (write_texts texts ++ rest)
              (length-resize (length t) 0 o),
          read_texts-write_texts old texts rest (omega arith) h.1,
        )
        refl

  pub read_layers-write_layers :
      (old layers : List (List ℕ)) (rest : List ℕ)
      → length old ≡ length layers
      → All IsLayer layers
      → read_layers unset old (write_layers layers ++ rest) ≡ (layers, rest)
  unfolding read_layers write_layers
  read_layers-write_layers [] [] rest e h = refl
  read_layers-write_layers [] (t ∷ layers) rest e h = absurd (omega arith)
  read_layers-write_layers (o ∷ old) [] rest e h = absurd (omega arith)
  read_layers-write_layers (o ∷ old) (t ∷ layers) rest e h =
      rw
        (
          modulo_size (length t) h.0.0,
          take_all (length t) t (omega arith),
          append_assoc (le_bytes 4 (length t)) (write_words 4 t ++ write_layers layers) rest,
          append_assoc (write_words 4 t) (write_layers layers) rest,
          rread_int-le_bytes 4 unset (length t) (write_words 4 t ++ (write_layers layers ++ rest))
              (word-Fits (length t) h.0.0),
          rread_words-write_words 4 (resize (length t) 0 o) t (write_layers layers ++ rest)
              (length-resize (length t) 0 o) h.0.1,
          read_layers-write_layers old layers rest (omega arith) h.1,
        )
        refl

  pub read_nodes-write_nodes :
      (old graph : Graph) (rest : List ℕ)
      → length old ≡ length graph
      → All IsNode graph
      → read_nodes unset old (write_nodes graph ++ rest) ≡ (graph, rest)
  unfolding read_nodes write_nodes
  read_nodes-write_nodes [] [] rest e h = refl
  read_nodes-write_nodes [] (t ∷ graph) rest e h = absurd (omega arith)
  read_nodes-write_nodes (o ∷ old) [] rest e h = absurd (omega arith)
  read_nodes-write_nodes (o ∷ old) (t ∷ graph) rest e h =
      rw
        (
          modulo_size (length t) h.0.0,
          append_assoc (le_bytes 4 (length t)) (write_layers t ++ write_nodes graph) rest,
          append_assoc (write_layers t) (write_nodes graph) rest,
          rread_int-le_bytes 4 unset (length t) (write_layers t ++ (write_nodes graph ++ rest))
              (word-Fits (length t) h.0.0),
          read_layers-write_layers (resize (length t) [] o) t (write_nodes graph ++ rest)
              (length-resize (length t) [] o) h.0.1,
          read_nodes-write_nodes old graph rest (omega arith) h.1,
        )
        refl
