-- ===== src/Text.antt =====
-- Python's `str` as a list of code points: the methods that the modelled code calls. The texts of
-- the modelled code are host names and identifiers, so the characters are those of ASCII.
pub mod Laws
pub mod Number
pub mod Uuid
use Prim.Native.Char.{code}
use Prim.Native.String.{String}
use byoda_python.Base.{
  ℕ, zero, suc, ◌+◌, ◌-◌, Bool, true, false, ◌&&◌, ◌||◌, List, [], ◌∷◌, ◌++◌, ◌==◌, leb, length,
  take, if◌then◌else◌,
}

abbrev pub Text : Type 0
Text = List ℕ

-- The code points of a literal.
abbrev pub codes : String → Text
codes String.[] = []
codes (String.◌∷◌ c s) = code c ∷ codes s

-- `s == t`
unfoldable pub text_eq : Text → Text → Bool
text_eq [] [] = true
text_eq [] (d ∷ t) = false
text_eq (c ∷ s) [] = false
text_eq (c ∷ s) (d ∷ t) = c == d && text_eq s t

abbrev pub is_empty : Text → Bool
is_empty [] = true
is_empty (c ∷ s) = false

-- `s.startswith(t)`
unfoldable pub starts_with : Text → Text → Bool
starts_with s [] = true
starts_with [] (d ∷ t) = false
starts_with (c ∷ s) (d ∷ t) = c == d && starts_with s t

-- `s.endswith(t)`
unfoldable pub ends_with : Text → Text → Bool
unfolding text_eq
ends_with [] t = text_eq [] t
ends_with (c ∷ s) t = text_eq (c ∷ s) t || ends_with s t

abbrev pub contains : Text → ℕ → Bool
contains [] d = false
contains (c ∷ s) d = c == d || contains s d

abbrev pub cons_first : ℕ → List Text → List Text
cons_first c [] = (c ∷ []) ∷ []
cons_first c (word ∷ words) = (c ∷ word) ∷ words

-- `s.split(sep)` for a separator of one character.
unfoldable pub split : ℕ → Text → List Text
split sep [] = [] ∷ []
split sep (c ∷ s) = let rest = split sep s in if c == sep then [] ∷ rest else cons_first c rest

-- `s.split(sep, n)`
unfoldable pub split_max : ℕ → ℕ → Text → List Text
split_max sep zero s = s ∷ []
split_max sep (suc n) [] = [] ∷ []
split_max sep (suc n) (c ∷ s) =
    let closed = split_max sep n s in
    let longer = split_max sep (suc n) s in if c == sep then [] ∷ closed else cons_first c longer

-- `sep.join(words)`
unfoldable pub join : ℕ → List Text → Text
join sep [] = []
join sep (word ∷ []) = word
join sep (word ∷ next ∷ words) = word ++ sep ∷ join sep (next ∷ words)

-- `s[:-n]` for n > 0
abbrev pub drop_last : ℕ → Text → Text
drop_last n s = take (length s - n) s

-- `s.rstrip(sep)` for one character.
unfoldable pub rstrip : ℕ → Text → Text
rstrip sep [] = []
rstrip sep (c ∷ s) = let rest = rstrip sep s in if is_empty rest && c == sep then [] else c ∷ rest

-- `s.lstrip(sep)` for one character.
unfoldable pub lstrip : ℕ → Text → Text
lstrip sep [] = []
lstrip sep (c ∷ s) = let rest = lstrip sep s in if c == sep then rest else c ∷ s

-- `s.lower()`
abbrev pub lower_code : ℕ → ℕ
lower_code c = if leb b'A' c && leb c b'Z' then c + 32 else c

abbrev pub lower : Text → Text
lower [] = []
lower (c ∷ s) = lower_code c ∷ lower s
