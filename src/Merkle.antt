-- ===== src/Merkle.antt =====
-- Merkle trees over the digests of a file's blocks: byoda/util/merkletree.py. The hash and the
-- decomposition of a size into powers of two are those of the `pymerkle` package.
pub mod Counting
pub mod Shape
pub mod Root
pub mod Injective
use byoda_python.Base.{
  ℕ, zero, suc, ◌+◌, ◌*◌, ◌^◌, ◌<◌, ◌≡◌, List, [], ◌∷◌, ◌++◌, Option, none, some, length, Result,
  ok, raise, attribute_error, ◌>>=◌, ◌>>◌, or_raise,
}

-- `decompose(n)` gives the exponents of the powers of two that sum to `n`, the lowest first: `n` is an
-- odd multiple of the lowest power.
pub record Pymerkle (D : Type 0) : Type 0 where
  pub hash_nodes : D → D → D
  pub decompose : ℕ → List ℕ
  pub lowest :
      (n : ℕ)
      → 0 < n
      → (e : ℕ) × (rest : List ℕ) × (q : ℕ) × (decompose n ≡ e ∷ rest) × (n ≡ 2 ^ e * (2 * q + 1))

-- `Node`: a digest, with two children or none. The parent of a node is where it stands in the tree.
pub data Tree (D : Type 0) : Type 0 where
  leaf : D → Tree D
  node : D → Tree D → Tree D → Tree D

-- The parents of a node on the right edge, from the node up: their digests and left children.
abbrev pub Parents : Type 0 → Type 0
Parents D = List (D × Tree D)

module _ {D : Type 0} where
  abbrev pub digest : Tree D → D
  digest (leaf d) = d
  digest (node d l r) = d

  -- The digests of the leaves, in their order.
  abbrev pub leaves_of : Tree D → List D
  leaves_of (leaf d) = d ∷ []
  leaves_of (node d l r) = leaves_of l ++ leaves_of r

  -- `self.leaves[-1]` with its parents.
  abbrev pub last_leaf : Tree D → D
  last_leaf (leaf d) = d
  last_leaf (node d l r) = last_leaf r

  unfoldable pub parents_of : Tree D → Parents D
  parents_of (leaf d) = []
  parents_of (node d l r) = parents_of r ++ (d, l) ∷ []

  -- `Node.get_ancestor`: `None.parent` is an AttributeError.
  unfoldable pub get_ancestor : ℕ → Tree D → Parents D → Result (Tree D × Parents D)
  get_ancestor zero t parents = ok (t, parents)
  get_ancestor (suc degree) t [] = raise attribute_error
  get_ancestor (suc degree) t ((d, l) ∷ parents) = get_ancestor degree (node d l t) parents

abbrev pub head? : List ℕ → Option ℕ
head? [] = none
head? (e ∷ rest) = some e

-- `ByoMerkleTree`: its root and the digests of its leaves.
pub record MerkleTree (D : Type 0) : Type 0 where
  pub root : Option (Tree D)
  pub leaves : List D

module _ {D : Type 0} (pymerkle : Pymerkle D) where
  -- The loop of `_store_leaf` up to the root: every parent takes the new right child and is hashed
  -- again.
  unfoldable pub rehash : Tree D → Parents D → Tree D
  rehash t [] = t
  rehash t ((d, l) ∷ parents) =
      rehash (node (pymerkle.hash_nodes (digest l) (digest t)) l t) parents

  -- `_get_last_maximal_subroot`, with the parents that stay above it.
  unfoldable pub get_last_maximal_subroot : ℕ → Tree D → Result (Tree D × Parents D)
  unfolding get_ancestor parents_of
  get_last_maximal_subroot size t = do
    degree ← or_raise attribute_error (head? (pymerkle.decompose size))
    get_ancestor degree (leaf (last_leaf t)) (parents_of t)

  -- `_store_leaf`: the new leaf becomes the right sibling of the last maximal subroot. A tree with
  -- leaves has a root.
  unfoldable pub store_in : List D → Option (Tree D) → D → Result (MerkleTree D × ℕ)
  unfolding get_last_maximal_subroot rehash
  store_in [] root d = ok (record { root = some (leaf d); leaves = d ∷ [] }, 1)
  store_in (first ∷ others) none d = raise attribute_error
  store_in (first ∷ others) (some t) d = do
    (subroot, parents) ← get_last_maximal_subroot (length (first ∷ others)) t
    ok (
      record {
        root =
            some (rehash (node (pymerkle.hash_nodes (digest subroot) d) subroot (leaf d)) parents);
        leaves = (first ∷ others) ++ d ∷ [];
      },
      length (first ∷ others) + 1,
    )

  unfoldable pub store_leaf : MerkleTree D → D → Result (MerkleTree D × ℕ)
  unfolding store_in
  store_leaf tree d = store_in tree.leaves tree.root d

  abbrev pub empty : MerkleTree D
  empty = record { root = none; leaves = [] }

  -- `append_entry_by_digest` for each digest in turn.
  unfoldable pub append_digests : MerkleTree D → List D → Result (MerkleTree D)
  unfolding store_leaf
  append_digests tree [] = ok tree
  append_digests tree (d ∷ ds) = do (next, index) ← store_leaf tree d; append_digests next ds

  -- `ByoMerkleTree.from_digests`
  unfoldable pub from_digests : List D → Result (MerkleTree D)
  unfolding append_digests
  from_digests ds = append_digests empty ds
