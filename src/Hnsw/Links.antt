-- ===== src/Hnsw/Links.antt =====
-- include/hnsw.hpp: how the accesses to `graph_` see one another.
use neuraldatabase.Prelude.{
  ℕ, zero, suc, ◌+◌, ◌-◌, ◌≡◌, refl, ap, ◌∙◌, ◌⊎◌, inl, inr, List, [], ◌∷◌, ◌++◌, Bool-cases,
  length, get_or, set, replicate, get_or-replicate, leb,
}
use neuraldatabase.Hnsw.State.{Graph, links, grow, set_links}

module _ {A : Type 0} where
  get_or-set_cases :
      (xs : List A) (i j : ℕ) (v d : A)
      → (get_or (set xs i v) j d ≡ get_or xs j d) ⊎ ((i ≡ j) × (get_or (set xs i v) j d ≡ v))
  get_or-set_cases [] i j v d = inl refl
  get_or-set_cases (x ∷ xs) zero zero v d = inr (refl, refl)
  get_or-set_cases (x ∷ xs) zero (suc j) v d = inl refl
  get_or-set_cases (x ∷ xs) (suc i) zero v d = inl refl
  get_or-set_cases (x ∷ xs) (suc i) (suc j) v d = elim (get_or-set_cases xs i j v d) [
    | inl e ↦ inl e
    | inr (p, e) ↦ inr (ap suc p, e)
  ]

  get_or-set_same :
      (xs : List A) (i j : ℕ) (v d : A)
      → v ≡ get_or xs i d
      → get_or (set xs i v) j d ≡ get_or xs j d
  get_or-set_same xs i j v d h = elim (get_or-set_cases xs i j v d) [
    | inl e ↦ e
    | inr (p, e) ↦ e ∙ h ∙ ap (λ k. get_or xs k d) p
  ]

  -- padding with the default is not seen
  get_or-pad : (xs : List A) (n j : ℕ) (d : A) → get_or (xs ++ replicate n d) j d ≡ get_or xs j d
  get_or-pad [] n j d = get_or-replicate n j d
  get_or-pad (x ∷ xs) n zero d = refl
  get_or-pad (x ∷ xs) n (suc j) d = get_or-pad xs n j d

  get_or-append_cases :
      (xs : List A) (x d : A) (j : ℕ)
      → (get_or (xs ++ x ∷ []) j d ≡ get_or xs j d)
        ⊎ ((get_or (xs ++ x ∷ []) j d ≡ x) × (get_or xs j d ≡ d))
  get_or-append_cases [] x d zero = inr (refl, refl)
  get_or-append_cases [] x d (suc j) = inl refl
  get_or-append_cases (y ∷ xs) x d zero = inl refl
  get_or-append_cases (y ∷ xs) x d (suc j) = get_or-append_cases xs x d j

-- A write to one list of links leaves the others.
pub links-set_links :
    (graph : Graph) (n lc n' lc' : ℕ) (nbs : List ℕ)
    → (links (set_links graph n lc nbs) n' lc' ≡ links graph n' lc')
      ⊎ ((lc ≡ lc') × (links (set_links graph n lc nbs) n' lc' ≡ nbs))
unfolding links set_links
links-set_links graph n lc n' lc' nbs =
    elim (get_or-set_cases graph n n' (set (get_or graph n []) lc nbs) []) [
      | inl e ↦ inl (rw e refl)
      | inr (p, e) ↦ elim (get_or-set_cases (get_or graph n []) lc lc' nbs []) [
        | inl e' ↦ inl (rw e (e' ∙ ap (λ k. get_or (get_or graph k []) lc' []) p))
        | inr (p', e') ↦ inr (p', rw e e')
      ]
    ]

get_or-grow :
    (layers : List (List ℕ)) (lc j : ℕ) → get_or (grow layers lc) j [] ≡ get_or layers j []
unfolding grow
get_or-grow layers lc j = elim (Bool-cases (leb (length layers) lc)) [
  | inl e ↦ rw e (get_or-pad layers (lc + 1 - length layers) j [])
  | inr e ↦ rw e refl
]

-- Growing a node to a layer adds no link.
pub links-grow :
    (graph : Graph) (nb lc n lc' : ℕ)
    → links (set graph nb (grow (get_or graph nb []) lc)) n lc' ≡ links graph n lc'
unfolding links
links-grow graph nb lc n lc' =
    elim (get_or-set_cases graph nb n (grow (get_or graph nb []) lc) []) [
      | inl e ↦ rw e refl
      | inr (p, e) ↦
          rw e (
            get_or-grow (get_or graph nb []) lc lc' ∙ ap (λ k. get_or (get_or graph k []) lc' []) p)
    ]

-- A new node has no links and is nobody's neighbour.
pub links-append :
    (graph : Graph) (level n lc : ℕ)
    → links (graph ++ replicate level [] ∷ []) n lc ≡ links graph n lc
unfolding links
links-append graph level n lc = elim (get_or-append_cases graph (replicate level []) [] n) [
  | inl e ↦ rw e refl
  | inr (e, e') ↦ rw (e, e') (get_or-replicate level lc [])
]
