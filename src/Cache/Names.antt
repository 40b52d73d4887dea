-- ===== src/Cache/Names.antt =====
-- The name of a counter and the filter that it is for.
use mathlib.Core.List.Perm
use mathlib.Core.List.{Perm, foldr}
use byoda_python.Base.{◌≡◌, refl, ap, sym, ◌∙◌, true, false, List, [], ◌∷◌, map, arith}
use byoda_python.Text.{Text}
use byoda_python.Cache.Counter.{
  text_leb, insert_text, sorted_texts, CounterFilter, specifier, add_specifiers, get_key_name,
}

text_leb_total : (s t : Text) → text_leb s t ≡ false → text_leb t s ≡ true
unfolding text_leb
text_leb_total [] t h = cc
text_leb_total (c ∷ s) [] h = refl
text_leb_total (c ∷ s) (d ∷ t) h = ground (arith, text_leb_total s t)

text_leb_antisym : (s t : Text) → text_leb s t ≡ true → text_leb t s ≡ true → s ≡ t
unfolding text_leb
text_leb_antisym [] [] h k = refl
text_leb_antisym [] (d ∷ t) h k = cc
text_leb_antisym (c ∷ s) [] h k = cc
text_leb_antisym (c ∷ s) (d ∷ t) h k = ground (arith, text_leb_antisym s t)

text_leb_trans : (s t u : Text) → text_leb s t ≡ true → text_leb t u ≡ true → text_leb s u ≡ true
unfolding text_leb
text_leb_trans [] t u h k = refl
text_leb_trans (c ∷ s) [] u h k = cc
text_leb_trans (c ∷ s) (d ∷ t) [] h k = cc
text_leb_trans (c ∷ s) (d ∷ t) (e ∷ u) h k = ground (arith, text_leb_trans s t u)

insert_text_comm :
    (s t : Text) (texts : List Text)
    → insert_text s (insert_text t texts) ≡ insert_text t (insert_text s texts)
unfolding insert_text
insert_text_comm s t [] = ground (arith, text_leb_total s t, text_leb_antisym s t)
insert_text_comm s t (u ∷ texts) = ground (
  arith,
  insert_text_comm s t texts,
  text_leb_total s t,
  text_leb_total s u,
  text_leb_total t u,
  text_leb_antisym s t,
  text_leb_trans s t u,
  text_leb_trans t s u,
)

sorted_texts-foldr : (texts : List Text) → sorted_texts texts ≡ foldr insert_text [] texts
unfolding sorted_texts
sorted_texts-foldr [] = refl
sorted_texts-foldr (s ∷ texts) = ap (insert_text s) (sorted_texts-foldr texts)

-- The fields of a filter, in whatever order, give the same name.
pub get_key_name-perm :
    (class_name : Text) (f g : CounterFilter)
    → Perm f g
    → get_key_name class_name f ≡ get_key_name class_name g
unfolding get_key_name
get_key_name-perm class_name f g p = ap (add_specifiers class_name) (
    sorted_texts-foldr (map specifier f)
    ∙ (Perm.foldr-eq (hlevel) insert_text insert_text_comm (Perm.map specifier p) []
        ∙ sym (sorted_texts-foldr (map specifier g))))

-- The texts follow each other in their order.
abbrev pub IsSorted : List Text → Type 0
IsSorted [] = Unit
IsSorted (s ∷ []) = Unit
IsSorted (s ∷ t ∷ texts) = (text_leb s t ≡ true) × IsSorted (t ∷ texts)

pub sorted_texts_of_IsSorted : (texts : List Text) → IsSorted texts → sorted_texts texts ≡ texts
unfolding sorted_texts insert_text
sorted_texts_of_IsSorted [] h = refl
sorted_texts_of_IsSorted (s ∷ []) h = refl
sorted_texts_of_IsSorted (s ∷ t ∷ texts) h = rw (sorted_texts_of_IsSorted (t ∷ texts) h.1, h.0) refl
