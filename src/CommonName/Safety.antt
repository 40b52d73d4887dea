-- ===== src/CommonName/Safety.antt =====
-- What an accepted common name guarantees, and which names are turned away.
use byoda_python.Base.{
  ℕ, ◌+◌, ◌^◌, ◌<◌, ◌≡◌, refl, ap, Bool, true, false, ◌||◌, not, List, [], ◌∷◌, ◌++◌, Option, none,
  some, length, Result, ok, raise, value_error, or_raise, arith, Returns, Returns-ok,
  Returns-require, Returns-bind, Returns-then, >>=-eq-ok, Bool-cases, inl, inr,
}
use byoda_python.Text.{Text, ends_with, split, split_max, drop_last, text_eq}
use byoda_python.Text.Laws.{text_eq→≡}
use byoda_python.Text.Number.{ℤ, pos, negsuc}
use byoda_python.Text.Uuid.{to_uuid}
use byoda_python.DataTypes.{IdType, by_value_lengths, Identifier, uuid, EntityId}
use byoda_python.CommonName.{
  review, three_parts, two_levels, read_identifier, numbered, in_range, find_id_type, same_service,
  is_some,
}

ends_with_sound : (s t : Text) → ends_with s t ≡ true → (p : Text) × (s ≡ p ++ t)
unfolding ends_with
ends_with_sound [] t h = ([], text_eq→≡ [] t h)
ends_with_sound (c ∷ s) t h = elim (Bool-cases (text_eq (c ∷ s) t)) [
  | inl same ↦ ([], text_eq→≡ (c ∷ s) t same)
  | inr other ↦ let (p, e) = ends_with_sound s t (ground arith) in (c ∷ p, ap (◌∷◌ c) e)
]

-- The type that a common name states, whatever the review is asked to check.
abbrev kind_of : Result (Option Text × Text) → Option IdType
kind_of (raise e) = none
kind_of (ok (text, subdomain)) = elim (numbered false subdomain (split b'-' subdomain)) [
  | raise e ↦ none
  | ok (kind, number) ↦ find_id_type kind by_value_lengths
]

pub type_of : Text → Text → Option IdType
type_of commonname network =
    kind_of (two_levels (split b'.' (drop_last (length network + 1) commonname)))

numbered-relaxed :
    (check : Bool) (s : Text) (words : List Text) (r : Text × Option ℤ)
    → numbered check s words ≡ ok r
    → numbered false s words ≡ ok r
unfolding numbered
numbered-relaxed check s [] r h = h
numbered-relaxed check s (w ∷ []) r h = h
numbered-relaxed check s (w ∷ next ∷ words) r h = ground arith

or_raise-eq-ok : (o : Option IdType) (t : IdType) → or_raise value_error o ≡ ok t → o ≡ some t
or_raise-eq-ok none t h = cc
or_raise-eq-ok (some u) t h = cc

type_of_parts :
    (commonname network : Text) (levels : Option Text × Text) (digits : Text × Option ℤ)
    (t : IdType)
    → two_levels (split b'.' (drop_last (length network + 1) commonname)) ≡ ok levels
    → numbered false levels.1 (split b'-' levels.1) ≡ ok digits
    → find_id_type digits.0 by_value_lengths ≡ some t
    → type_of commonname network ≡ some t
unfolding type_of
type_of_parts commonname network levels digits t h k l = ground arith

-- A UUID, if one was asked for.
abbrev pub IsIdentified : Bool → Option Identifier → Type 0
IsIdentified true o = (u : ℕ) × (o ≡ some (uuid u)) × (u < 2 ^ 128)
IsIdentified false o = Unit

-- What the caller of the review may rely on.
pub record IsReviewed (commonname network : Text) (wanted : Option ℕ) (by_uuid check : Bool)
    (e : EntityId) : Type 0 where
  pub on_network : (p : Text) × (commonname ≡ p ++ b'.' ∷ network)
  pub identified : IsIdentified by_uuid e.id
  pub typed : type_of commonname network ≡ some e.id_type
  pub in_bounds : (n : ℕ) → e.service_id ≡ some n → n < 2 ^ 32
  pub of_service : check ≡ true → (n : ℕ) × (wanted ≡ some n) × (e.service_id ≡ some n)

to_uuid-lt : (s : Text) (u : ℕ) → to_uuid s ≡ ok u → u < 2 ^ 128
unfolding to_uuid
to_uuid-lt s u h = ground arith

read_identifier-IsIdentified :
    (by_uuid : Bool) (o : Option Text) (i : Option Identifier)
    → read_identifier by_uuid o ≡ ok i
    → IsIdentified by_uuid i
unfolding read_identifier
read_identifier-IsIdentified false o i h = tt
read_identifier-IsIdentified true none i h = cc
read_identifier-IsIdentified true (some text) i h =
    let (u, read, e) = >>=-eq-ok (to_uuid text) _ h in (u, ground arith, to_uuid-lt text u read)

in_range-lt : (o : Option ℤ) (r : Option ℕ) (n : ℕ) → in_range o ≡ ok r → r ≡ some n → n < 2 ^ 32
unfolding in_range
in_range-lt none r n h e = cc
in_range-lt (some (pos m)) r n h e = ground arith
in_range-lt (some (negsuc m)) r n h e = cc

same_service→≡ : (o : Option ℕ) (n : ℕ) → same_service o (some n) ≡ true → o ≡ some n
same_service→≡ none n h = cc
same_service→≡ (some m) n h = ground arith

checked :
    (check : Bool) (found wanted : Option ℕ)
    → (not check || is_some wanted) ≡ true
    → (not check || same_service found wanted) ≡ true
    → check ≡ true
    → (n : ℕ) × (wanted ≡ some n) × (found ≡ some n)
checked check found none h k e = cc
checked check found (some n) h k e = (n, refl, same_service→≡ found n (ground arith))

run :
    (commonname network : Text) (wanted : Option ℕ) (by_uuid check : Bool)
    → Returns
        (IsReviewed commonname network wanted by_uuid check)
        (review commonname network wanted by_uuid check)
unfolding review
run commonname network wanted by_uuid check = Returns-require _ _ _ λ given.
    Returns-then (three_parts (split_max b'.' 2 commonname)) _ λ _. Returns-require _ _ _ λ suffix.
      Returns-bind (two_levels (split b'.' (drop_last (length network + 1) commonname))) _
        λ (levels : Option Text × Text) cut.
          Returns-bind (read_identifier by_uuid levels.0) _ λ identifier read.
            Returns-bind (numbered check levels.1 (split b'-' levels.1)) _
              λ (digits : Text × Option ℤ) numbers.
                Returns-bind (in_range digits.1) _ λ cn_service_id bounded.
                  Returns-bind (or_raise value_error (find_id_type digits.0 by_value_lengths)) _
                    λ id_type found. Returns-require _ _ _ λ same. Returns-ok _ (record {
                      on_network = ends_with_sound commonname (b'.' ∷ network) suffix;
                      identified = read_identifier-IsIdentified by_uuid levels.0 identifier read;
                      typed =
                          type_of_parts commonname network levels digits id_type cut
                            (numbered-relaxed check levels.1 (split b'-' levels.1) digits numbers)
                            (or_raise-eq-ok (find_id_type digits.0 by_value_lengths) id_type found);
                      in_bounds = λ n. in_range-lt digits.1 cn_service_id n bounded;
                      of_service = checked check cn_service_id wanted given same;
                    })

-- An accepted common name ends in the network's name; its identifier is a UUID of 128 bits if one was
-- asked for; its type is the one that the name states by itself; its service id, if it has one, fits 32 bits; and where the service id is checked, it
-- is the one that the caller named.
pub review-IsReviewed :
    (commonname network : Text) (wanted : Option ℕ) (by_uuid check : Bool) (e : EntityId)
    → review commonname network wanted by_uuid check ≡ ok e
    → IsReviewed commonname network wanted by_uuid check e
review-IsReviewed commonname network wanted by_uuid check e h =
    (run commonname network wanted by_uuid check).at e h
