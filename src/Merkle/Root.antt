-- ===== src/Merkle/Root.antt =====
-- What the root of a tree is: the Merkle tree hash of the digests that were stored, in their order.
use mathlib.Core.List.{append-nil, append_assoc}
use byoda_python.Base.{
  ℕ, ◌+◌, ◌^◌, ◌<◌, ◌≤◌, ◌≡◌, ◌∙◌, refl, sym, ap, subst, List, [], ◌∷◌, ◌++◌, length, some, ok,
  arith,
}
use byoda_python.Merkle.{
  Pymerkle, Tree, leaf, node, digest, leaves_of, parents_of, MerkleTree, rehash,
  get_last_maximal_subroot, store_in, store_leaf, append_digests, from_digests,
}
use byoda_python.Merkle.Shape.{size, size-pos, Balanced, beside, Grows, Balanced-Grows}

-- The Merkle tree hash of a list: of one digest, the digest; of more, the hash of the hashes of the
-- largest power of two digests that is less than all, and of the rest.
pub data IsRoot {D : Type 0} (hash_nodes : D → D → D) : List D → D → Type 0 where
  single : (d : D) → IsRoot hash_nodes (d ∷ []) d
  pair :
      (k : ℕ) (xs ys zs : List D) (a b : D)
      → zs ≡ xs ++ ys
      → length xs ≡ 2 ^ k
      → 0 < length ys
      → length ys ≤ 2 ^ k
      → IsRoot hash_nodes xs a
      → IsRoot hash_nodes ys b
      → IsRoot hash_nodes zs (hash_nodes a b)

module _ {D : Type 0} (pymerkle : Pymerkle D) where
  open pymerkle use {hash_nodes}

  Balanced-IsRoot : (t : Tree D) → Balanced pymerkle t → IsRoot hash_nodes (leaves_of t) (digest t)
  Balanced-IsRoot (leaf d) b = single d
  Balanced-IsRoot (node d l r) (k, hl, hr, e, bl, br) =
      subst (IsRoot hash_nodes (leaves_of l ++ leaves_of r)) (sym e) (
        pair k (leaves_of l) (leaves_of r) (leaves_of l ++ leaves_of r) (digest l) (digest r) refl
          hl (size-pos r) hr (Balanced-IsRoot l bl) (Balanced-IsRoot r br))

  -- A tree that holds these digests.
  pub record Holds (tree : MerkleTree D) (ds : List D) : Type 0 where
    pub top : Tree D
    pub is_top : tree.root ≡ some top
    pub in_order : leaves_of top ≡ ds
    pub listed : tree.leaves ≡ ds
    pub balanced : Balanced pymerkle top

  subroot-found :
      (t : Tree D) (x : D) (e : ℕ) (rest : List ℕ) (g : Grows pymerkle t x e)
      → pymerkle.decompose (size t) ≡ e ∷ rest
      → get_last_maximal_subroot pymerkle (size t) t ≡ ok (g.subroot, g.inner)
  unfolding get_last_maximal_subroot
  subroot-found t x e rest g h =
      rw h (rw (append-nil (parents_of t), append-nil g.inner) at (g.found []))

  store_in-Holds :
      (ls : List D) (t : Tree D) (x : D)
      → leaves_of t ≡ ls
      → Balanced pymerkle t
      → (next : MerkleTree D) × (store_in pymerkle ls (some t) x ≡ ok (next, length ls + 1))
        × Holds next (ls ++ x ∷ [])
  unfolding store_in
  store_in-Holds [] t x e b = absurd (omega (arith, size-pos t, ap length e))
  store_in-Holds (first ∷ others) t x e b =
      let (n, rest, q, first_is, odd) = pymerkle.lowest (size t) (size-pos t) in
      let g = Balanced-Grows pymerkle t x n b (q, odd) in
      (
        record {
          root = some (rehash pymerkle (beside pymerkle g.subroot x) g.inner);
          leaves = (first ∷ others) ++ x ∷ [];
        },
        rw (ap length (sym e), subroot-found t x n rest g first_is) refl,
        record {
          top = rehash pymerkle (beside pymerkle g.subroot x) g.inner;
          is_top = refl;
          in_order = g.leaves ∙ ap (λ l. l ++ x ∷ []) e;
          listed = refl;
          balanced = g.balanced;
        },
      )

  append_digests-Holds :
      (ds : List D) (tree : MerkleTree D) (before : List D)
      → Holds tree before
      → (next : MerkleTree D) × (append_digests pymerkle tree ds ≡ ok next)
        × Holds next (before ++ ds)
  unfolding append_digests store_leaf
  append_digests-Holds [] tree before h = (tree, refl, rw (append-nil before) h)
  append_digests-Holds (d ∷ ds) tree before h =
      let (next, stored, holds) =
        store_in-Holds tree.leaves h.top d (h.in_order ∙ sym h.listed) h.balanced in
      let (last, appended, holds_all) =
        append_digests-Holds ds next (tree.leaves ++ d ∷ []) holds in
      (
        last,
        rw (h.is_top, stored) appended,
        subst (Holds last)
            (ap (λ l. (l ++ d ∷ []) ++ ds) h.listed ∙ append_assoc before (d ∷ []) ds) holds_all,
      )

  -- The tree of a list of digests: its leaves are the digests in their order, and the digest of its
  -- root is their Merkle tree hash.
  pub record IsMerkleTree (ds : List D) (tree : MerkleTree D) : Type 0 where
    pub top : Tree D
    pub is_top : tree.root ≡ some top
    pub leaves : leaves_of top ≡ ds
    pub listed : tree.leaves ≡ ds
    pub is_root : IsRoot hash_nodes ds (digest top)

  -- From a list of digests that is not empty, `from_digests` makes a tree: its leaves are the digests
  -- in their order, and the digest of its root is their Merkle tree hash.
  pub from_digests-IsMerkleTree :
      (d : D) (ds : List D)
      → (tree : MerkleTree D) × (from_digests pymerkle (d ∷ ds) ≡ ok tree)
        × IsMerkleTree (d ∷ ds) tree
  unfolding from_digests append_digests store_leaf store_in
  from_digests-IsMerkleTree d ds =
      let first : MerkleTree D = record { root = some (leaf d); leaves = d ∷ [] } in
      let (tree, made, h) =
        append_digests-Holds ds first (d ∷ [])
          (record { top = leaf d; is_top = refl; in_order = refl; listed = refl; balanced = tt }) in
      (
        tree,
        made,
        record {
          top = h.top;
          is_top = h.is_top;
          leaves = h.in_order;
          listed = h.listed;
          is_root =
              subst (λ l. IsRoot hash_nodes l (digest h.top)) h.in_order
                (Balanced-IsRoot h.top h.balanced);
        },
      )
