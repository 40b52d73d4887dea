-- ===== src/Tests/Tables.antt =====
-- A table as a function from keys to rows, and numbers as the values of a cache.
use byoda_python.Base.{
  ℕ, ◌≤◌, ◌≡◌, refl, subst, inl, inr, List, [], ◌∷◌, map, Option, none, some, Result, ok, length,
  ltb, ◌==◌, Bool-cases, if◌then◌else◌, arith, ok-injective,
}
use byoda_python.Text.{Text, text_eq}
use byoda_python.Text.Laws.{text_eq→≡}
use byoda_python.Text.Number.{ℤ, pos, negsuc}
use byoda_python.Cache.{Orjson, SqlTable, Row, keep, is_current}

-- The content and the expiration of each key's row.
abbrev pub Rows : Type 0
Rows = Text → Option (Text × ℕ)

abbrev pub rows_of : Text → Option (Text × ℕ) → List Row
rows_of key none = []
rows_of key (some (content, expires)) =
    (record { key = key; content = content; expires = expires }) ∷ []

abbrev pub with_row : Rows → Text → Option (Text × ℕ) → Rows
with_row s key row = λ k. if text_eq k key then row else s k

abbrev pub inserted : Rows → Row → Option (Text × ℕ) → Option Rows
inserted s r (some old) = none
inserted s r none = some (with_row s r.key (some (r.content, r.expires)))

abbrev pub updated : Text → ℕ → Option (Text × ℕ) → Option (Text × ℕ)
updated content expires none = none
updated content expires (some old) = some (content, expires)

abbrev pub current : ℕ → Option (Text × ℕ) → Option (Text × ℕ)
current now none = none
current now (some (content, expires)) = if ltb expires now then none else some (content, expires)

pub rows_of_unique : (key : Text) (row : Option (Text × ℕ)) → length (rows_of key row) ≤ 1
rows_of_unique key none = omega arith
rows_of_unique key (some (content, expires)) = omega arith

pub insert-taken :
    (s : Rows) (r x : Row) (rows : List Row)
    → rows_of r.key (s r.key) ≡ x ∷ rows
    → inserted s r (s r.key) ≡ none
insert-taken s r x rows h = by_row (s r.key) h
  where
    by_row : (row : Option (Text × ℕ)) → rows_of r.key row ≡ x ∷ rows → inserted s r row ≡ none
    by_row none e = absurd (cc)
    by_row (some old) e = refl

pub rows_of-with_row :
    (s : Rows) (key k : Text) (row : Option (Text × ℕ))
    → rows_of k (with_row s key row k)
      ≡ (if text_eq k key then rows_of key row else rows_of k (s k))
rows_of-with_row s key k row = elim (Bool-cases (text_eq k key)) [
  | inl e ↦ rw (e, text_eq→≡ k key e) refl
  | inr e ↦ rw e refl
]

pub insert-free :
    (s : Rows) (r : Row)
    → rows_of r.key (s r.key) ≡ []
    → (s' : Rows) × (inserted s r (s r.key) ≡ some s')
      × ((k : Text) → rows_of k (s' k) ≡ (if text_eq k r.key then r ∷ [] else rows_of k (s k)))
insert-free s r h = by_row (s r.key) h
  where
    by_row :
        (row : Option (Text × ℕ))
        → rows_of r.key row ≡ []
        → (s' : Rows) × (inserted s r row ≡ some s')
          × ((k : Text) → rows_of k (s' k) ≡ (if text_eq k r.key then r ∷ [] else rows_of k (s k)))
    by_row (some old) e = absurd (cc)
    by_row none e = (
      with_row s r.key (some (r.content, r.expires)),
      refl,
      λ k. rows_of-with_row s r.key k (some (r.content, r.expires)),
    )

pub select-update :
    (s : Rows) (key content : Text) (expires : ℕ) (k : Text)
    → rows_of k (with_row s key (updated content expires (s key)) k) ≡ (
        if text_eq k key
        then map
            (λ r. record { key = r.key; content = content; expires = expires })
            (rows_of k (s k))
        else rows_of k (s k))
select-update s key content expires k = elim (Bool-cases (text_eq k key)) [
  | inl e ↦ rw (e, text_eq→≡ k key e) (by_row (s key))
  | inr e ↦ rw e refl
]
  where
    by_row :
        (row : Option (Text × ℕ))
        → rows_of key (updated content expires row)
          ≡ map
              (λ r. record { key = r.key; content = content; expires = expires })
              (rows_of key row)
    by_row none = refl
    by_row (some old) = refl

pub select-delete_before :
    (now : ℕ) (k : Text) (row : Option (Text × ℕ))
    → rows_of k (current now row) ≡ keep (is_current now) (rows_of k row)
select-delete_before now k none = refl
select-delete_before now k (some (content, expires)) = elim (Bool-cases (ltb expires now)) [
  | inl e ↦ rw e refl
  | inr e ↦ rw e refl
]

abbrev pub rows : SqlTable Rows
rows = record {
  select = λ s k. rows_of k (s k);
  insert = λ s r. inserted s r (s r.key);
  update = λ s key content expires. with_row s key (updated content expires (s key));
  delete = λ s key. (with_row s key none, length (rows_of key (s key)));
  delete_before = λ s now. ((λ k. current now (s k)), 0);
  select-unique = λ s k. rows_of_unique k (s k);
  insert-taken = insert-taken;
  insert-free = insert-free;
  select-update = select-update;
  select-delete = λ s key k. rows_of-with_row s key k none;
  delete-count = λ s key. refl;
  select-delete_before = λ s now k. select-delete_before now k (s k);
}

-- Numbers are written with their sign.
abbrev pub written : Option ℤ → Result Text
written none = ok []
written (some (pos n)) = ok (b'+' ∷ n ∷ [])
written (some (negsuc n)) = ok (b'-' ∷ n ∷ [])

abbrev pub read : Text → Result (Option ℤ)
read [] = ok none
read (c ∷ []) = ok none
read (c ∷ n ∷ []) = ok (some (if c == b'+' then pos n else negsuc n))
read (c ∷ n ∷ d ∷ s) = ok none

pub read-written : (v : Option ℤ) (s : Text) → written v ≡ ok s → read s ≡ ok v
read-written none s h = subst (λ t. read t ≡ ok none) (ok-injective h) refl
read-written (some (pos n)) s h = subst (λ t. read t ≡ ok (some (pos n))) (ok-injective h) refl
read-written (some (negsuc n)) s h =
    subst (λ t. read t ≡ ok (some (negsuc n))) (ok-injective h) refl

abbrev pub numbers : Orjson ℤ
numbers = record {
  dumps = written;
  loads = read;
  integer = λ n. n;
  to_int = λ n. ok n;
  loads-dumps = read-written;
  to_int-integer = λ n. refl;
  dumps-integer = λ n h. (b'+' ∷ n ∷ [], refl);
}

abbrev pub no_rows : Rows
no_rows = λ k. none
