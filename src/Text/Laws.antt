-- ===== src/Text/Laws.antt =====
-- How splitting, prefixes and suffixes act on texts that are put together from parts.
use byoda_python.Base.{
  ℕ, suc, ◌-◌, ◌≡◌, refl, ◌≢◌, ◌↔◌, true, [], ◌∷◌, ◌++◌, arith, length, length-append,
  take-length-append, All,
}
use byoda_python.Text.{Text, text_eq, starts_with, ends_with, split, split_max, drop_last}

-- No character of the text is `sep`.
abbrev pub Free : ℕ → Text → Type 0
Free sep = All (λ c. c ≢ sep)

pub text_eq_refl : (s : Text) → text_eq s s ≡ true
unfolding text_eq
text_eq_refl [] = refl
text_eq_refl (c ∷ s) = ground (arith, text_eq_refl s)

pub text_eq→≡ : (s t : Text) → text_eq s t ≡ true → s ≡ t
unfolding text_eq
text_eq→≡ [] [] h = refl
text_eq→≡ [] (d ∷ t) h = cc
text_eq→≡ (c ∷ s) [] h = cc
text_eq→≡ (c ∷ s) (d ∷ t) h = ground (arith, text_eq→≡ s t)

pub text_eq_iff : (s t : Text) → (text_eq s t ≡ true) ↔ (s ≡ t)
text_eq_iff s t = (text_eq→≡ s t, λ e. rw e (text_eq_refl t))

pub split_of_Free : (sep : ℕ) (s : Text) → Free sep s → split sep s ≡ s ∷ []
unfolding split
split_of_Free sep [] h = refl
split_of_Free sep (c ∷ s) h = ground (arith, split_of_Free sep s h.1)

-- A separator ends the first part.
pub split-append : (sep : ℕ) (s t : Text) → Free sep s → split sep (s ++ sep ∷ t) ≡ s ∷ split sep t
unfolding split
split-append sep [] t h = ground arith
split-append sep (c ∷ s) t h = ground (arith, split-append sep s t h.1)

pub split_max-append :
    (sep n : ℕ) (s t : Text)
    → Free sep s
    → split_max sep (suc n) (s ++ sep ∷ t) ≡ s ∷ split_max sep n t
unfolding split_max
split_max-append sep n [] t h = ground arith
split_max-append sep n (c ∷ s) t h = ground (arith, split_max-append sep n s t h.1)

pub starts_with-append : (s t : Text) → starts_with (s ++ t) s ≡ true
unfolding starts_with
starts_with-append [] [] = refl
starts_with-append [] (c ∷ t) = refl
starts_with-append (c ∷ s) t = ground (arith, starts_with-append s t)

pub ends_with-append : (s t : Text) → ends_with (s ++ t) t ≡ true
unfolding ends_with
ends_with-append [] [] = refl
ends_with-append [] (c ∷ t) = ground (arith, text_eq_refl (c ∷ t))
ends_with-append (c ∷ s) t = ground (arith, ends_with-append s t)

-- Cutting off a suffix by its length.
pub drop_last-append : (s t : Text) → drop_last (length t) (s ++ t) ≡ s
drop_last-append s t =
    let e : length (s ++ t) - length t ≡ length s = omega (arith, length-append s t) in
    rw e (take-length-append s t)
