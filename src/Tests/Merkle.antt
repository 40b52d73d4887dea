-- ===== src/Tests/Merkle.antt =====
-- Trees over digests that are terms of the hash, with the binary decomposition of a size.
use byoda_python.Base.{
  ℕ, zero, suc, ◌+◌, ◌*◌, ◌/◌, ◌%◌, ◌^◌, ◌<◌, ◌≤◌, ◌≡◌, ◌∙◌, refl, ap, inl, inr, List, [], ◌∷◌,
  some, ok, if◌then◌else◌, ◌==◌, Bool-cases, false, arith,
}
use byoda_python.Merkle.Counting.{mul-double}
use byoda_python.Merkle.{Pymerkle, Tree, leaf, node, MerkleTree, from_digests}
use byoda_python.Merkle.Root.{IsMerkleTree, from_digests-IsMerkleTree}
use byoda_python.Merkle.Injective.{CollisionFree, from_digests-injective}

data Digest : Type 0 where
  block : ℕ → Digest
  both : Digest → Digest → Digest

-- The exponents of the bits of a number, the lowest first.
unfoldable exponents : ℕ → ℕ → ℕ → List ℕ
exponents zero k n = []
exponents (suc fuel) k n =
    let rest = exponents fuel (suc k) (n / 2) in if n % 2 == 1 then k ∷ rest else rest

even-Lowest :
    (n e q : ℕ) → n % 2 == 1 ≡ false → n / 2 ≡ 2 ^ e * (2 * q + 1) → n ≡ 2 ^ suc e * (2 * q + 1)
even-Lowest n e q even h = ground (arith, mul-double e (2 * q + 1))

exponents-lowest :
    (fuel k n : ℕ)
    → 0 < n
    → n ≤ fuel
    → (e : ℕ) × (rest : List ℕ) × (q : ℕ) × (exponents fuel k n ≡ (k + e) ∷ rest)
      × (n ≡ 2 ^ e * (2 * q + 1))
unfolding exponents
exponents-lowest zero k n p h = absurd (omega arith)
exponents-lowest (suc fuel) k n p h = elim (Bool-cases (n % 2 == 1)) [
  | inl odd ↦ (
    zero,
    exponents fuel (suc k) (n / 2),
    n / 2,
    rw odd (ap (λ (e : ℕ). e ∷ exponents fuel (suc k) (n / 2)) (omega arith)),
    ground arith,
  )
  | inr even ↦
      let (e, rest, q, found, is_n) =
        exponents-lowest fuel (suc k) (n / 2) (ground arith) (ground arith) in
      (
        suc e,
        rest,
        q,
        rw even (found ∙ ap (λ (e : ℕ). e ∷ rest) (omega arith)),
        even-Lowest n e q even is_n,
      )
]

lowest :
    (n : ℕ)
    → 0 < n
    → (e : ℕ) × (rest : List ℕ) × (q : ℕ) × (exponents n 0 n ≡ e ∷ rest) × (n ≡ 2 ^ e * (2 * q + 1))
lowest n p =
    let (e, rest, q, found, is_n) = exponents-lowest n 0 n p (omega arith) in
    (e, rest, q, found ∙ ap (λ (e' : ℕ). e' ∷ rest) (omega arith), is_n)

abbrev terms : Pymerkle Digest
terms = record { hash_nodes = both; decompose = λ n. exponents n 0 n; lowest = lowest }

-- The two digests of a term.
abbrev halves : Digest → Digest × Digest
halves (block n) = (block n, block n)
halves (both a b) = (a, b)

terms-CollisionFree : CollisionFree both
terms-CollisionFree a b c d e =
    let h : (a, b) ≡ (c, d) = ap halves e in (ap (λ p. p.0) h, ap (λ p. p.1) h)

abbrev blocks : List Digest
blocks = block 2 ∷ block 3 ∷ []

abbrev top : Tree Digest
top =
    node (both (both (block 1) (block 2)) (block 3))
      (node (both (block 1) (block 2)) (leaf (block 1)) (leaf (block 2))) (leaf (block 3))

abbrev tree : MerkleTree Digest
tree = record { root = some top; leaves = block 1 ∷ blocks }

three-blocks : from_digests terms (block 1 ∷ blocks) ≡ ok tree
unfolding from_digests exponents
three-blocks = refl

from_digests-IsMerkleTree_example :
    (tree : MerkleTree Digest) × (from_digests terms (block 1 ∷ blocks) ≡ ok tree)
    × IsMerkleTree terms (block 1 ∷ blocks) tree
from_digests-IsMerkleTree_example = from_digests-IsMerkleTree terms (block 1) blocks

from_digests-injective_example : block 1 ∷ blocks ≡ block 1 ∷ blocks
from_digests-injective_example =
    from_digests-injective terms (block 1) (block 1) blocks blocks tree tree top top
      terms-CollisionFree refl three-blocks three-blocks refl refl refl
