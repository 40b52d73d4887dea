-- ===== src/ContentKeys/Active.antt =====
-- Which key `get_active_content_key` finds.
use byoda_python.Base.{
  ℕ, ◌<◌, ◌≤◌, ◌≡◌, refl, Bool-cases, inl, inr, true, List, [], ◌∷◌, Option, none, some, All,
  All-imp, Any, arith,
}
use byoda_python.ContentKeys.{
  ContentKeyStatus, KeyData, ContentKey, status_at, from_dict, filtered_keys, get_content_keys,
  first_key, get_active_content_key, same_status,
}
use byoda_python.ContentKeys.Sorting.{
  sorted_keys-All, All-sorted_keys, First, Active, sorted_keys-First,
}

same_active :
    (status : ContentKeyStatus)
    → same_status ContentKeyStatus.active status ≡ true
    → status ≡ ContentKeyStatus.active
same_active ContentKeyStatus.active h = refl
same_active _ h = cc

status_at_active :
    (now not_before not_after : ℕ)
    → not_before ≤ now
    → now < not_after
    → status_at now not_before not_after ≡ ContentKeyStatus.active
unfolding status_at
status_at_active now not_before not_after h g = ground arith

active_bounds :
    (now not_before not_after : ℕ)
    → status_at now not_before not_after ≡ ContentKeyStatus.active
    → (not_before ≤ now) × (now < not_after)
unfolding status_at
active_bounds now not_before not_after h = ground arith

-- The rows whose keys have the status, and only they, are left.
module _ (now : ℕ) (P : ContentKey → Type 0) where
  filtered_keys-All :
      (rows : List KeyData)
      → All (λ row. Active (from_dict now row) → P (from_dict now row)) rows
      → All P (filtered_keys now (some ContentKeyStatus.active) rows)
  unfolding filtered_keys
  filtered_keys-All [] h = tt
  filtered_keys-All (row ∷ rows) h =
      elim (Bool-cases (same_status ContentKeyStatus.active (from_dict now row).status)) [
        | inl is ↦
            rw is (h.0 (same_active (from_dict now row).status is), filtered_keys-All rows h.1)
        | inr other ↦ rw other (filtered_keys-All rows h.1)
      ]

  All-filtered_keys :
      (rows : List KeyData)
      → All P (filtered_keys now (some ContentKeyStatus.active) rows)
      → All (λ row. Active (from_dict now row) → P (from_dict now row)) rows
  unfolding filtered_keys
  All-filtered_keys [] h = tt
  All-filtered_keys (row ∷ rows) h =
      elim (Bool-cases (same_status ContentKeyStatus.active (from_dict now row).status)) [
        | inl is ↦ let kept = (rw is at h) in ((λ active. kept.0), All-filtered_keys rows kept.1)
        | inr other ↦
            ((λ active. absurd (cc (active, other))), All-filtered_keys rows (rw other at h))
      ]

-- Every row's key is that of a row.
All-stored :
    (now : ℕ) (rows : List KeyData)
    → All (λ row. Any (λ other. from_dict now other ≡ from_dict now row) rows) rows
All-stored now [] = tt
All-stored now (row ∷ rows) =
    (inl refl, All-imp (λ other found. inr found) rows (All-stored now rows))

-- The key that is found is that of a row, it has started and has not ended, and no other such key
-- started before it.
pub record IsFirstActive (now : ℕ) (rows : List KeyData) (k : ContentKey) : Type 0 where
  pub stored : Any (λ row. from_dict now row ≡ k) rows
  pub started : k.not_before ≤ now
  pub not_ended : now < k.not_after
  pub first :
      All (λ row. row.not_before ≤ now → now < row.not_after → k.not_before ≤ row.not_before) rows

-- The answer: such a key, or none where no row's key is active.
abbrev pub IsAnswer : ℕ → List KeyData → Option ContentKey → Type 0
IsAnswer now rows none = All (λ row. row.not_before ≤ now → now < row.not_after → ⊥) rows
IsAnswer now rows (some k) = IsFirstActive now rows k

module _ (now : ℕ) (rows : List KeyData) where
  abbrev Stored : ContentKey → Type 0
  Stored k = Any (λ row. from_dict now row ≡ k) rows

  -- What a property of all keys in order says about the rows.
  rows-All :
      (P : ContentKey → Type 0)
      → All P (get_content_keys now (some ContentKeyStatus.active) rows)
      → All (λ row. Active (from_dict now row) → P (from_dict now row)) rows
  unfolding get_content_keys
  rows-All P h =
      All-filtered_keys now P rows
        (All-sorted_keys P (filtered_keys now (some ContentKeyStatus.active) rows) h)

  keys-All :
      (P : ContentKey → Type 0)
      → All (λ row. Active (from_dict now row) → P (from_dict now row)) rows
      → All P (get_content_keys now (some ContentKeyStatus.active) rows)
  unfolding get_content_keys
  keys-All P h = sorted_keys-All P _ (filtered_keys-All now P rows h)

  keys-First : First (get_content_keys now (some ContentKeyStatus.active) rows)
  unfolding get_content_keys
  keys-First = sorted_keys-First _ (
      filtered_keys-All now Active rows
        (All-imp (λ row found active. active) rows (All-stored now rows)))

  IsAnswer-of :
      (keys : List ContentKey)
      → ((P : ContentKey → Type 0)
          → All P keys
          → All (λ row. Active (from_dict now row) → P (from_dict now row)) rows)
      → First keys
      → All Stored keys
      → All (λ (k : ContentKey). (k.not_before ≤ now) × (now < k.not_after)) keys
      → IsAnswer now rows (first_key keys)
  unfolding from_dict
  IsAnswer-of [] back h stored bounds =
      All-imp {Q = λ (row : KeyData). row.not_before ≤ now → now < row.not_after → ⊥}
        (λ (row : KeyData) none started running.
          none (status_at_active now row.not_before row.not_after started running))
        rows (back (λ k. ⊥) tt)
  IsAnswer-of (k ∷ keys) back h stored bounds = record {
    stored = stored.0;
    started = bounds.0.0;
    not_ended = bounds.0.1;
    first =
        All-imp
          {Q = λ (row : KeyData).
            row.not_before ≤ now → now < row.not_after → k.not_before ≤ row.not_before}
          (λ (row : KeyData) later started running.
            later (status_at_active now row.not_before row.not_after started running))
          rows (back (λ (l : ContentKey). k.not_before ≤ l.not_before) h);
  }

-- The active content key of a table is one of the keys in the table that have started and not ended,
-- the one that started first; there is none only if no key of the table is active.
pub get_active_content_key-IsAnswer :
    (now : ℕ) (rows : List KeyData) → IsAnswer now rows (get_active_content_key now rows)
unfolding get_active_content_key from_dict
get_active_content_key-IsAnswer now rows =
    IsAnswer-of now rows (get_content_keys now (some ContentKeyStatus.active) rows)
      (rows-All now rows) (keys-First now rows)
      (keys-All now rows (Stored now rows)
        (All-imp (λ row found active. found) rows (All-stored now rows)))
      (keys-All now rows (λ (k : ContentKey). (k.not_before ≤ now) × (now < k.not_after))
        (All-imp
          {Q = λ row.
            Active (from_dict now row)
            → ((from_dict now row).not_before ≤ now) × (now < (from_dict now row).not_after)}
          (λ (row : KeyData) found active. active_bounds now row.not_before row.not_after active)
          rows (All-stored now rows)))
