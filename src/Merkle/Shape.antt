-- ===== src/Merkle/Shape.antt =====
-- The shape of the trees: every left part is a full tree of a power of two leaves, and the right part
-- is no larger.
use mathlib.Core.List.{append_assoc}
use byoda_python.Base.{
  ℕ, zero, suc, ◌+◌, ◌^◌, ◌<◌, ◌≤◌, ◌≡◌, ◌∙◌, refl, sym, ap, ◌⊎◌, inl, inr, [], ◌∷◌, ◌++◌, length,
  length-append, ok, arith, ◌==◌, Bool-cases,
}
use byoda_python.Merkle.{
  Pymerkle, Tree, leaf, node, Parents, digest, leaves_of, last_leaf, parents_of, get_ancestor,
  rehash,
}
use byoda_python.Merkle.Counting.{
  Lowest, Lowest-pow, Lowest-add, pow-double, pow-pos, pow-eq-one, pow-sum,
}

module _ {D : Type 0} where
  abbrev pub size : Tree D → ℕ
  size t = length (leaves_of t)

  pub size-pos : (t : Tree D) → 0 < size t
  size-pos (leaf d) = omega arith
  size-pos (node d l r) = omega (arith, length-append (leaves_of l) (leaves_of r), size-pos l)

  -- One step further up.
  get_ancestor-suc :
      (j : ℕ) (t s : Tree D) (parents above : Parents D) (d : D) (l : Tree D)
      → get_ancestor j t parents ≡ ok (s, (d, l) ∷ above)
      → get_ancestor (suc j) t parents ≡ ok (node d l s, above)
  unfolding get_ancestor
  get_ancestor-suc zero t s [] above d l h = absurd (ground arith)
  get_ancestor-suc zero t s ((c, k) ∷ parents) above d l h = cc
  get_ancestor-suc (suc j) t s [] above d l h = cc
  get_ancestor-suc (suc j) t s ((c, k) ∷ parents) above d l h =
      get_ancestor-suc j (node c k t) s parents above d l h

lt_or_eq : (a b : ℕ) → a ≤ b → (a < b) ⊎ (a ≡ b)
lt_or_eq a b h = elim (Bool-cases (a == b)) [
  | inl e ↦ inr (ground arith)
  | inr e ↦ inl (ground arith)
]

module _ {D : Type 0} (pymerkle : Pymerkle D) where
  open pymerkle use {hash_nodes}

  abbrev pub Balanced : Tree D → Type 0
  Balanced (leaf d) = Unit
  Balanced (node d l r) =
      (k : ℕ) × (size l ≡ 2 ^ k)
      × (size r ≤ 2 ^ k)
      × (d ≡ hash_nodes (digest l) (digest r))
      × Balanced l
      × Balanced r

  -- In a full tree the root is as far above the last leaf as its size tells.
  full-ancestor :
      (t : Tree D) (k : ℕ) (above : Parents D)
      → Balanced t
      → size t ≡ 2 ^ k
      → get_ancestor k (leaf (last_leaf t)) (parents_of t ++ above) ≡ ok (t, above)
  unfolding parents_of get_ancestor
  full-ancestor (leaf d) k above b h = rw (pow-eq-one k (sym h)) refl
  full-ancestor (node d l r) k above (j, hl, hr, e, bl, br) h =
      let (is_suc, full) =
        pow-sum j k (size r) (size-pos r) hr
          (omega (arith, length-append (leaves_of l) (leaves_of r))) in
      rw (is_suc, append_assoc (parents_of r) ((d, l) ∷ []) above)
        (get_ancestor-suc j (leaf (last_leaf r)) r (parents_of r ++ (d, l) ∷ above) above d l
          (full-ancestor r j ((d, l) ∷ above) br full))

  rehash-append :
      (t : Tree D) (parents above : Parents D)
      → rehash pymerkle t (parents ++ above) ≡ rehash pymerkle (rehash pymerkle t parents) above
  unfolding rehash
  rehash-append t [] above = refl
  rehash-append t ((d, l) ∷ parents) above =
      rehash-append (node (hash_nodes (digest l) (digest t)) l t) parents above

  -- The tree with one more leaf beside a subtree on its right edge.
  abbrev pub beside : Tree D → D → Tree D
  beside subroot x = node (hash_nodes (digest subroot) x) subroot (leaf x)

  -- The subtree on the right edge that a new leaf joins, and what comes of it.
  pub record Grows (t : Tree D) (x : D) (e : ℕ) : Type 0 where
    pub subroot : Tree D
    pub inner : Parents D
    pub found :
        (above : Parents D)
        → get_ancestor e (leaf (last_leaf t)) (parents_of t ++ above) ≡ ok (subroot, inner ++ above)
    pub balanced : Balanced (rehash pymerkle (beside subroot x) inner)
    pub leaves : leaves_of (rehash pymerkle (beside subroot x) inner) ≡ leaves_of t ++ x ∷ []

  -- A full tree becomes the left part.
  full-Grows : (t : Tree D) (x : D) (k e : ℕ) → Balanced t → size t ≡ 2 ^ k → e ≡ k → Grows t x e
  unfolding rehash
  full-Grows t x k e b h same = record {
    subroot = t;
    inner = [];
    found = λ above. rw same (full-ancestor t k above b h);
    balanced = (k, h, pow-pos k, refl, b, tt);
    leaves = refl;
  }

  -- A right part with room takes the new leaf.
  right-Grows :
      (d : D) (l r : Tree D) (x : D) (k e : ℕ)
      → size l ≡ 2 ^ k
      → size r < 2 ^ k
      → Balanced l
      → Grows r x e
      → Grows (node d l r) x e
  unfolding parents_of rehash
  right-Grows d l r x k e hl hr bl g =
      let grown = rehash pymerkle (beside g.subroot x) g.inner in
      let one_more : size grown ≡ size r + 1 =
        ap length g.leaves ∙ length-append (leaves_of r) (x ∷ []) in
      record {
        subroot = g.subroot;
        inner = g.inner ++ (d, l) ∷ [];
        found = λ above.
            rw
              (
                append_assoc (parents_of r) ((d, l) ∷ []) above,
                append_assoc g.inner ((d, l) ∷ []) above,
              )
              (g.found ((d, l) ∷ above));
        balanced =
            rw (rehash-append (beside g.subroot x) g.inner ((d, l) ∷ []))
              (k, hl, omega (arith, one_more), refl, bl, g.balanced);
        leaves =
            rw (rehash-append (beside g.subroot x) g.inner ((d, l) ∷ []), g.leaves)
              (sym (append_assoc (leaves_of l) (leaves_of r) (x ∷ [])));
      }

  pub Balanced-Grows : (t : Tree D) (x : D) (e : ℕ) → Balanced t → Lowest e (size t) → Grows t x e
  Balanced-Grows (leaf d) x e b h = full-Grows (leaf d) x 0 e tt refl (Lowest-pow 0 e h)
  Balanced-Grows (node d l r) x e (k, hl, hr, same, bl, br) (q, h) =
      let total : size (node d l r) ≡ 2 ^ k + size r =
        omega (arith, length-append (leaves_of l) (leaves_of r)) in
      elim (lt_or_eq (size r) (2 ^ k) hr) [
        | inl room ↦
            (right-Grows d l r x k e hl room bl (
              Balanced-Grows r x e br
                (Lowest-add k e (size r) (size-pos r) room (q, sym total ∙ h))))
        | inr full ↦
            (let twice : size (node d l r) ≡ 2 ^ suc k = omega (arith, total, pow-double k) in
              full-Grows (node d l r) x (suc k) e (k, hl, hr, same, bl, br) twice
                (Lowest-pow (suc k) e (q, sym twice ∙ h)))
      ]
