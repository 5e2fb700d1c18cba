-- ===== src/Bindings/Dicts.antt =====
-- python/bindings.cpp: what a dictionary holds after assignments to its keys.
use neuraldatabase.Prelude.{
  ◌≡◌, refl, sym, ap, subst, ◌∙◌, inl, inr, true, false, Option, none, some, List, [], ◌∷◌, map,
  arith, All, Bool-cases, if◌then◌else◌,
}
use neuraldatabase.Filter.{Text, text_eq, assign, lookup}
use neuraldatabase.Bindings.Values.{assign_all}

text_eq-eq : (a b : Text) → text_eq a b ≡ true → a ≡ b
unfolding text_eq
text_eq-eq [] [] h = refl
text_eq-eq [] (y ∷ ys) h = cc
text_eq-eq (x ∷ xs) [] h = cc
text_eq-eq (x ∷ xs) (y ∷ ys) h = ground (arith, text_eq-eq xs ys)

-- the one or the other
abbrev pub or_else {ℓ} : {A : Type ℓ} → Option A → Option A → Option A
or_else (some a) other = some a
or_else none other = other

pub or_else-none {ℓ} : {A : Type ℓ} (o : Option A) → or_else o none ≡ o
or_else-none none = refl
or_else-none (some a) = refl

abbrev pub map_option {ℓ κ} : {A : Type ℓ} {B : Type κ} → (A → B) → Option A → Option B
map_option f none = none
map_option f (some a) = some (f a)

module _ {V : Type 0} where
  abbrev pub HasNoKey : Text → List (Text × V) → Type 0
  HasNoKey key es = All (λ e. text_eq e.0 key ≡ false) es

  -- no key twice
  abbrev pub AreDistinct : List (Text × V) → Type 0
  AreDistinct [] = Unit
  AreDistinct ((k, v) ∷ rest) = HasNoKey k rest × AreDistinct rest

  lookup-assign :
      (key k : Text) (v : V) (m : List (Text × V))
      → lookup key (assign k v m) ≡ (if text_eq k key then some v else lookup key m)
  unfolding lookup assign
  lookup-assign key k v [] = refl
  lookup-assign key k v ((j, w) ∷ m) = elim (Bool-cases (text_eq j k)) [
    | inl e ↦
        let same : text_eq j key ≡ text_eq k key = ap (λ t. text_eq t key) (text_eq-eq j k e) in
        rw (e, same) (elim (Bool-cases (text_eq k key)) [ inl t ↦ rw t refl | inr t ↦ rw t refl ])
    | inr e ↦ rw e (elim (Bool-cases (text_eq j key)) [
      | inl t ↦
          let other : text_eq k key ≡ false = elim (Bool-cases (text_eq k key)) [
            | inl t' ↦
                let clash : text_eq j k ≡ true =
                  subst (λ x. text_eq j x ≡ true) (sym (text_eq-eq k key t')) t in
                cc
            | inr t' ↦ t'
          ] in
          rw (t, other) refl
      | inr t ↦ rw t (lookup-assign key k v m)
    ])
  ]

  pub HasNoKey-lookup :
      (key k : Text) (es : List (Text × V))
      → text_eq k key ≡ true
      → HasNoKey k es
      → lookup key es ≡ none
  unfolding lookup
  HasNoKey-lookup key k [] t h = refl
  HasNoKey-lookup key k ((j, w) ∷ es) t h =
      let other : text_eq j key ≡ false =
        subst (λ x. text_eq j x ≡ false) (text_eq-eq k key t) h.0 in
      rw other (HasNoKey-lookup key k es t h.1)

  pub lookup-assign_all :
      (key : Text) (m es : List (Text × V))
      → AreDistinct es
      → lookup key (assign_all m es) ≡ or_else (lookup key es) (lookup key m)
  unfolding lookup assign_all
  lookup-assign_all key m [] d = refl
  lookup-assign_all key m ((k, v) ∷ rest) d =
      lookup-assign_all key (assign k v m) rest d.1
      ∙ ap (λ o. or_else (lookup key rest) o) (lookup-assign key k v m)
      ∙ (elim (Bool-cases (text_eq k key)) [
        | inl t ↦ rw (t, HasNoKey-lookup key k rest t d.0) refl
        | inr t ↦ rw t refl
      ])

module _ {V W : Type 0} (f : V → W) where
  abbrev pub map_values : List (Text × V) → List (Text × W)
  map_values es = map (λ x. (x.0, f x.1)) es

  pub lookup-map_values :
      (key : Text) (es : List (Text × V))
      → lookup key (map_values es) ≡ map_option f (lookup key es)
  unfolding lookup
  lookup-map_values key [] = refl
  lookup-map_values key ((k, v) ∷ es) = elim (Bool-cases (text_eq k key)) [
    | inl t ↦ rw t refl
    | inr t ↦ rw t (lookup-map_values key es)
  ]

  pub map_values-AreDistinct : (es : List (Text × V)) → AreDistinct es → AreDistinct (map_values es)
  map_values-AreDistinct [] d = tt
  map_values-AreDistinct ((k, v) ∷ es) d =
      (map_values-HasNoKey k es d.0, map_values-AreDistinct es d.1)
    where
      map_values-HasNoKey :
          (key : Text) (xs : List (Text × V)) → HasNoKey key xs → HasNoKey key (map_values xs)
      map_values-HasNoKey key [] h = tt
      map_values-HasNoKey key (x ∷ xs) h = (h.0, map_values-HasNoKey key xs h.1)
