-- ===== src/ContentKeys/Sorting.antt =====
-- What sorting keys keeps, and what it puts first.
use byoda_python.Base.{
  ◌≤◌, ◌≡◌, ◌∙◌, refl, sym, Bool-cases, inl, inr, true, false, List, [], ◌∷◌, All, All-imp, arith,
  ltb,
}
use byoda_python.ContentKeys.{ContentKeyStatus, ContentKey, key_lt, insert_key, sorted_keys}

module _ (P : ContentKey → Type 0) where
  -- Sorting keeps the elements.
  pub insert_key-All :
      (k : ContentKey) (keys : List ContentKey) → P k → All P keys → All P (insert_key k keys)
  unfolding insert_key
  insert_key-All k [] p h = (p, tt)
  insert_key-All k (l ∷ keys) p h = elim (Bool-cases (key_lt l k)) [
    | inl before ↦ rw before (h.0, insert_key-All k keys p h.1)
    | inr after ↦ rw after (p, h)
  ]

  pub All-insert_key :
      (k : ContentKey) (keys : List ContentKey) → All P (insert_key k keys) → P k × All P keys
  unfolding insert_key
  All-insert_key k [] h = (h.0, tt)
  All-insert_key k (l ∷ keys) h = elim (Bool-cases (key_lt l k)) [
    | inl before ↦
        let (pl, rest) = (rw before at h) in
        let (pk, others) = All-insert_key k keys rest in (pk, (pl, others))
    | inr after ↦ rw after at h
  ]

  pub sorted_keys-All : (keys : List ContentKey) → All P keys → All P (sorted_keys keys)
  unfolding sorted_keys
  sorted_keys-All [] h = tt
  sorted_keys-All (k ∷ keys) h = insert_key-All k (sorted_keys keys) h.0 (sorted_keys-All keys h.1)

  pub All-sorted_keys : (keys : List ContentKey) → All P (sorted_keys keys) → All P keys
  unfolding sorted_keys
  All-sorted_keys [] h = tt
  All-sorted_keys (k ∷ keys) h =
      let (p, rest) = All-insert_key k (sorted_keys keys) h in (p, All-sorted_keys keys rest)

-- The first key starts before the others.
abbrev pub First : List ContentKey → Type 0
First [] = Unit
First (k ∷ keys) = All (λ (l : ContentKey). k.not_before ≤ l.not_before) (k ∷ keys)

abbrev pub Active : ContentKey → Type 0
Active k = k.status ≡ ContentKeyStatus.active

-- Of two active keys, the order is that of their starts.
key_lt-Active :
    (a b : ContentKey) → Active a → Active b → key_lt a b ≡ ltb a.not_before b.not_before
unfolding key_lt
key_lt-Active a b e f = rw (e, f) refl

earlier :
    (k l m : ContentKey)
    → k.not_before ≤ l.not_before
    → l.not_before ≤ m.not_before
    → k.not_before ≤ m.not_before
earlier k l m h g = omega arith

insert_key-First :
    (k : ContentKey) (keys : List ContentKey)
    → Active k
    → All Active keys
    → First keys
    → First (insert_key k keys)
unfolding insert_key
insert_key-First k [] e es h = (omega arith, tt)
insert_key-First k (l ∷ keys) e es h = elim (Bool-cases (key_lt l k)) [
  | inl before ↦
      let started : ltb l.not_before k.not_before ≡ true =
        sym (key_lt-Active l k es.0 e) ∙ before in
      rw before (
        omega arith,
        insert_key-All (λ (m : ContentKey). l.not_before ≤ m.not_before) k keys (ground arith) h.1,
      )
  | inr after ↦
      let started : ltb l.not_before k.not_before ≡ false =
        sym (key_lt-Active l k es.0 e) ∙ after in
      let bound : k.not_before ≤ l.not_before = ground arith in
      rw after
        (omega arith, All-imp (λ (m : ContentKey) later. earlier k l m bound later) (l ∷ keys) h)
]

pub sorted_keys-First : (keys : List ContentKey) → All Active keys → First (sorted_keys keys)
unfolding sorted_keys
sorted_keys-First [] es = tt
sorted_keys-First (k ∷ keys) es =
    insert_key-First k (sorted_keys keys) es.0 (sorted_keys-All Active keys es.1)
      (sorted_keys-First keys es.1)
