-- ===== src/Merkle/Injective.antt =====
-- The root of a tree speaks for its leaves: without collisions of the hash, no other list of the same
-- length has that root.
use mathlib.Core.Path.{ap₂}
use byoda_python.Merkle.Counting.{pow-pos, pow-part_unique}
use byoda_python.Base.{
  ◌^◌, ◌≡◌, ◌∙◌, sym, ap, List, ◌∷◌, ◌++◌, length, length-append, some, ok, arith, ok-injective,
}
use byoda_python.Merkle.{Pymerkle, Tree, digest, MerkleTree, from_digests}
use byoda_python.Merkle.Root.{IsRoot, single, pair, from_digests-IsMerkleTree}

-- Two nodes with one hash have the same children.
abbrev pub CollisionFree : {D : Type 0} → (D → D → D) → Type 0
CollisionFree {D} hash_nodes = (a b c d : D) → hash_nodes a b ≡ hash_nodes c d → (a ≡ c) × (b ≡ d)

module _ {D : Type 0} (hash_nodes : D → D → D) (free : CollisionFree hash_nodes) where
  IsRoot-injective :
      (xs ys : List D) (a b : D)
      → length xs ≡ length ys
      → IsRoot hash_nodes xs a
      → IsRoot hash_nodes ys b
      → a ≡ b
      → xs ≡ ys
  IsRoot-injective xs ys a b e (single d) (single d') same = cc
  IsRoot-injective xs ys a b e (single d) (pair k ls rs _ a2 b2 cut hl pr hr _ _) same =
      absurd (omega (arith, ap length cut, length-append ls rs, pow-pos k))
  IsRoot-injective xs ys a b e (pair k ls rs _ a1 b1 cut hl pr hr _ _) (single d) same =
      absurd (omega (arith, ap length cut, length-append ls rs, pow-pos k))
  IsRoot-injective xs ys a b e (pair k ls rs _ a1 b1 cut hl pr hr left right)
        (pair k' ls' rs' _ a2 b2 cut' hl' pr' hr' left' right') same =
      let same_k : k ≡ k' = pow-part_unique k k' (length rs) (length rs') pr hr pr' hr' (
        omega (arith, ap length cut, ap length cut', length-append ls rs, length-append ls' rs')) in
      let same_l : length ls ≡ length ls' = hl ∙ ap (λ n. 2 ^ n) same_k ∙ sym hl' in
      let (ea, eb) = free a1 b1 a2 b2 same in
      let el = IsRoot-injective ls ls' a1 a2 same_l left left' ea in
      let er =
        IsRoot-injective rs rs' b1 b2
          (omega (arith, ap length cut, ap length cut', length-append ls rs, length-append ls' rs'))
          right right' eb in
      cut ∙ ap₂ (λ l r. l ++ r) el er ∙ sym cut'

-- Two trees made from lists of digests of one length, whose roots have the same digest, are made from
-- the same list, if the hash has no collisions.
pub from_digests-injective :
    {D : Type 0} (pymerkle : Pymerkle D) (c d : D) (cs ds : List D) (s t : MerkleTree D)
    (p q : Tree D)
    → CollisionFree pymerkle.hash_nodes
    → length cs ≡ length ds
    → from_digests pymerkle (c ∷ cs) ≡ ok s
    → from_digests pymerkle (d ∷ ds) ≡ ok t
    → s.root ≡ some p
    → t.root ≡ some q
    → digest p ≡ digest q
    → c ∷ cs ≡ d ∷ ds
from_digests-injective pymerkle c d cs ds s t p q free e made made' top top' same =
    let (s', is_s, hs) = from_digests-IsMerkleTree pymerkle c cs in
    let (t', is_t, ht) = from_digests-IsMerkleTree pymerkle d ds in
    let es : s' ≡ s = ok-injective (sym is_s ∙ made) in
    let et : t' ≡ t = ok-injective (sym is_t ∙ made') in
    let ep : hs.top ≡ p = cc (hs.is_top, top, ap (λ (m : MerkleTree _). m.root) es) in
    let eq : ht.top ≡ q = cc (ht.is_top, top', ap (λ (m : MerkleTree _). m.root) et) in
    IsRoot-injective pymerkle.hash_nodes free (c ∷ cs) (d ∷ ds) (digest hs.top) (digest ht.top)
      (omega arith) hs.is_root ht.is_root (ap digest ep ∙ same ∙ ap digest (sym eq))
