-- ===== src/Text/Number.antt =====
-- Python's `int(text, base)` and the decimal and hexadecimal numerals that it reads back.
use byoda_python.Base.{
  ℕ, zero, suc, ◌+◌, ◌-◌, ◌*◌, ◌/◌, ◌%◌, ◌^◌, ◌<◌, ◌≤◌, ◌≡◌, refl, ap, ◌≢◌, Bool, true, false, ◌&&◌,
  ◌||◌, [], ◌∷◌, ◌++◌, Option, none, some, arith, ◌==◌, leb, ltb, length, length-append, All,
  All-append, if◌then◌else◌, Bool-cases, inl, inr, ◌∙◌,
}
use mathlib.Core.List.{append_assoc, append-nil}
use mathlib.Core.Option
use native.Mathlib.Nat.{pow-suc}
use byoda_python.Text.{Text, codes}
use byoda_python.Text.Laws.{Free}

-- `negsuc n` is -(n + 1).
pub data ℤ : Type 0 where
  pos : ℕ → ℤ
  negsuc : ℕ → ℤ

abbrev pub neg : ℕ → ℤ
neg zero = pos 0
neg (suc n) = negsuc n

abbrev pub is_space : ℕ → Bool
is_space c = leb 9 c && leb c 13 || leb 28 c && leb c 32

lstrip_space : Text → Text
lstrip_space [] = []
lstrip_space (c ∷ s) = let rest = lstrip_space s in if is_space c then rest else c ∷ s

rstrip_space : Text → Text
rstrip_space [] = []
rstrip_space (c ∷ s) = elim (rstrip_space s) [
  | [] ↦ if is_space c then [] else c ∷ []
  | d ∷ t ↦ c ∷ d ∷ t
]

lstrip_of_no_space : (s : Text) → All (λ c. is_space c ≡ false) s → lstrip_space s ≡ s
unfolding lstrip_space
lstrip_of_no_space [] h = refl
lstrip_of_no_space (c ∷ s) h = rw h.0

rstrip_of_no_space : (s : Text) → All (λ c. is_space c ≡ false) s → rstrip_space s ≡ s
unfolding rstrip_space
rstrip_of_no_space [] h = refl
rstrip_of_no_space (c ∷ []) h = rw h.0
rstrip_of_no_space (c ∷ d ∷ s) h = rw (rstrip_of_no_space (d ∷ s) h.1, rstrip_space)

-- `s.strip()`
unfoldable pub strip : Text → Text
unfolding lstrip_space rstrip_space
strip s = rstrip_space (lstrip_space s)

pub strip_of_no_space : (s : Text) → All (λ c. is_space c ≡ false) s → strip s ≡ s
unfolding strip
strip_of_no_space s h = rw (lstrip_of_no_space s h) (rstrip_of_no_space s h)

-- The value of a digit in a base up to 16.
abbrev digit_value : ℕ → Option ℕ
digit_value c =
    if leb b'0' c && leb c b'9'
    then some (c - b'0')
    else if leb b'a' c && leb c b'f'
    then some (c - 87)
    else if leb b'A' c && leb c b'F'
    then some (c - 55)
    else none

unfoldable pub digit_in : ℕ → ℕ → Option ℕ
digit_in base c = elim (digit_value c) [
  | none ↦ none
  | some d ↦ if ltb d base then some d else none
]

-- `ready` says that a digit was just read: the text may end there, or go on with one underscore.
unfoldable pub digits_from : ℕ → ℕ → Bool → Text → Option ℕ
digits_from base acc ready [] = if ready then some acc else none
digits_from base acc ready (c ∷ s) = elim (digit_in base c) [
  | some d ↦ digits_from base (acc * base + d) true s
  | none ↦ elim (c == b'_' && ready) [ true ↦ digits_from base acc false s | false ↦ none ]
]

-- Behind `0x` one underscore is allowed.
abbrev skip_gap : Text → Text
skip_gap [] = []
skip_gap (c ∷ s) = if c == b'_' then s else c ∷ s

-- What follows the sign; base 16 allows the prefix `0x`.
unfoldable pub unsigned : ℕ → Text → Option ℕ
unfolding digits_from
unsigned base [] = none
unsigned base (c ∷ []) = digits_from base 0 false (c ∷ [])
unsigned base (c ∷ d ∷ s) =
    if base == 16 && c == b'0' && (d == b'x' || d == b'X')
    then digits_from base 0 false (skip_gap s)
    else digits_from base 0 false (c ∷ d ∷ s)

abbrev signed : ℕ → Text → Option ℤ
signed base [] = none
signed base (c ∷ s) =
    if c == b'-'
    then Option.map neg (unsigned base s)
    else if c == b'+'
    then Option.map pos (unsigned base s)
    else Option.map pos (unsigned base (c ∷ s))

-- `int(text, base)`; `none` stands for its ValueError.
unfoldable pub to_int : ℕ → Text → Option ℤ
unfolding lstrip_space rstrip_space unsigned
to_int base s = signed base (rstrip_space (lstrip_space s))

-- The numerals, as `str` prints an `int` and as the format `x` does.
unfoldable pub digit_code : ℕ → ℕ
digit_code d = if ltb d 10 then b'0' + d else 87 + d

numeral_from : ℕ → ℕ → Text
numeral_from zero n = []
numeral_from (suc fuel) n =
    let rest = numeral_from fuel (n / 10) in
    if ltb n 10 then digit_code n ∷ [] else rest ++ digit_code (n % 10) ∷ []

-- `str(n)`: a number has at most n + 1 digits.
unfoldable pub decimal : ℕ → Text
unfolding numeral_from
decimal n = numeral_from (suc n) n

-- `'%0<k>x' % n` for n < 16 ^ k.
unfoldable pub hex : ℕ → ℕ → Text
hex zero n = []
hex (suc k) n = hex k (n / 16) ++ digit_code (n % 16) ∷ []

read_numbers :
    (to_int 10 (codes " 42 ") ≡ some (pos 42))
    × (to_int 10 (codes "-1_0") ≡ some (negsuc 9))
    × (to_int 10 (codes "4__2") ≡ none)
    × (to_int 16 (codes "0x_fF") ≡ some (pos 255))
    × (to_int 10 (decimal 1234567890) ≡ some (pos 1234567890))
unfolding to_int decimal digit_in digit_code
read_numbers = (refl, refl, refl, refl, refl)

-- The characters of a numeral.
abbrev pub is_digit : ℕ → Bool
is_digit c = leb b'0' c && leb c b'9' || leb b'a' c && leb c b'f'

abbrev pub IsDigit : ℕ → Type 0
IsDigit c = is_digit c ≡ true

digit_in-digit_code : (base d : ℕ) → d < base → base ≤ 16 → digit_in base (digit_code d) ≡ some d
unfolding digit_in digit_code
digit_in-digit_code base d h k = ground arith

digit_code-IsDigit : (d : ℕ) → d < 16 → IsDigit (digit_code d)
unfolding digit_code
digit_code-IsDigit d h = ground arith

-- One more digit at the front of what is read.
digits_from-digit :
    (base acc d : ℕ) (ready : Bool) (rest : Text)
    → d < base
    → base ≤ 16
    → digits_from base acc ready (digit_code d ∷ rest) ≡ digits_from base (acc * base + d) true rest
unfolding digits_from
digits_from-digit base acc d ready rest h k = rw (digit_in-digit_code base d h k, digits_from)

-- Reading a numeral, whatever follows it.
digits_from-numeral :
    (fuel n : ℕ) (ready : Bool) (rest : Text)
    → n < fuel
    → digits_from 10 0 ready (numeral_from fuel n ++ rest) ≡ digits_from 10 n true rest
unfolding numeral_from
digits_from-numeral zero n ready rest h = elim h [ ]
digits_from-numeral (suc fuel) n ready rest h = ground (
  arith,
  digits_from-digit 10 0 n ready rest,
  append_assoc (numeral_from fuel (n / 10)) (digit_code (n % 10) ∷ []) rest,
  digits_from-numeral fuel (n / 10) ready (digit_code (n % 10) ∷ rest),
  digits_from-digit 10 (n / 10) (n % 10) true rest,
)

All-IsDigit-numeral_from : (fuel n : ℕ) → All IsDigit (numeral_from fuel n)
unfolding numeral_from
All-IsDigit-numeral_from zero n = tt
All-IsDigit-numeral_from (suc fuel) n = elim (Bool-cases (ltb n 10)) [
  | inl small ↦ rw small (digit_code-IsDigit n (ground arith), tt)
  | inr large ↦ rw large (
      All-append IsDigit (numeral_from fuel (n / 10)) (digit_code (n % 10) ∷ [])
        (All-IsDigit-numeral_from fuel (n / 10)) (digit_code-IsDigit (n % 10) (omega arith), tt))
]

pub All-IsDigit-hex : (k n : ℕ) → All IsDigit (hex k n)
unfolding hex
All-IsDigit-hex zero n = tt
All-IsDigit-hex (suc k) n =
    All-append IsDigit (hex k (n / 16)) (digit_code (n % 16) ∷ []) (All-IsDigit-hex k (n / 16))
      (digit_code-IsDigit (n % 16) (omega arith), tt)

pub All-IsDigit-decimal : (n : ℕ) → All IsDigit (decimal n)
unfolding decimal
All-IsDigit-decimal n = All-IsDigit-numeral_from (suc n) n

pub Free-of_IsDigit : (sep : ℕ) (s : Text) → is_digit sep ≡ false → All IsDigit s → Free sep s
Free-of_IsDigit sep [] h k = tt
Free-of_IsDigit sep (c ∷ s) h k = (λ e. cc (ap is_digit e), Free-of_IsDigit sep s h k.1)

lstrip_space_of_IsDigit : (s : Text) → All IsDigit s → lstrip_space s ≡ s
unfolding lstrip_space
lstrip_space_of_IsDigit [] h = refl
lstrip_space_of_IsDigit (c ∷ s) h = ground (arith, h.0)

rstrip_space_of_IsDigit : (s : Text) → All IsDigit s → rstrip_space s ≡ s
unfolding rstrip_space
rstrip_space_of_IsDigit [] h = refl
rstrip_space_of_IsDigit (c ∷ []) h = ground (arith, h.0)
rstrip_space_of_IsDigit (c ∷ d ∷ s) h = rw (rstrip_space_of_IsDigit (d ∷ s) h.1, rstrip_space)

-- No sign and no prefix stands before digits.
unsigned_of_IsDigit :
    (base : ℕ) (s : Text)
    → All IsDigit s
    → s ≢ []
    → signed base s ≡ Option.map pos (digits_from base 0 false s)
unfolding unsigned
unsigned_of_IsDigit base [] h k = absurd (k refl)
unsigned_of_IsDigit base (c ∷ []) h k = ground (arith, h.0)
unsigned_of_IsDigit base (c ∷ d ∷ s) h k = ground (arith, h.0, h.1.0)

to_int_of_IsDigit :
    (base : ℕ) (s : Text)
    → All IsDigit s
    → s ≢ []
    → to_int base s ≡ Option.map pos (digits_from base 0 false s)
unfolding to_int
to_int_of_IsDigit base s h k =
    rw (lstrip_space_of_IsDigit s h, rstrip_space_of_IsDigit s h) (unsigned_of_IsDigit base s h k)

append-ne-nil : (s : Text) (c : ℕ) (t : Text) → s ++ c ∷ t ≢ []
append-ne-nil [] c t = cc
append-ne-nil (d ∷ s) c t = cc

pub decimal-ne-nil : (n : ℕ) → decimal n ≢ []
unfolding decimal
decimal-ne-nil n = ground (arith, append-ne-nil (numeral_from n (n / 10)) (digit_code (n % 10)) [])

digits_from-decimal : (n : ℕ) → digits_from 10 0 false (decimal n) ≡ some n
unfolding decimal digits_from
digits_from-decimal n =
    rw (← append-nil (numeral_from (suc n) n))
      (digits_from-numeral (suc n) n false [] (omega arith))

-- The characters of a decimal numeral.
abbrev pub IsDecimal : ℕ → Type 0
IsDecimal c = (leb b'0' c && leb c b'9') ≡ true

digit_code-IsDecimal : (d : ℕ) → d < 10 → IsDecimal (digit_code d)
unfolding digit_code
digit_code-IsDecimal d h = ground arith

All-IsDecimal-numeral_from : (fuel n : ℕ) → All IsDecimal (numeral_from fuel n)
unfolding numeral_from
All-IsDecimal-numeral_from zero n = tt
All-IsDecimal-numeral_from (suc fuel) n = elim (Bool-cases (ltb n 10)) [
  | inl small ↦ rw small (digit_code-IsDecimal n (ground arith), tt)
  | inr large ↦ rw large (
      All-append IsDecimal (numeral_from fuel (n / 10)) (digit_code (n % 10) ∷ [])
        (All-IsDecimal-numeral_from fuel (n / 10))
        (digit_code-IsDecimal (n % 10) (omega arith), tt))
]

pub All-IsDecimal-decimal : (n : ℕ) → All IsDecimal (decimal n)
unfolding decimal
All-IsDecimal-decimal n = All-IsDecimal-numeral_from (suc n) n

-- `int` reads back what `str` prints.
pub to_int-decimal : (n : ℕ) → to_int 10 (decimal n) ≡ some (pos n)
to_int-decimal n = rw (
  to_int_of_IsDigit 10 (decimal n) (All-IsDigit-decimal n) (decimal-ne-nil n),
  digits_from-decimal n,
)

digits_from-hex :
    (k n d : ℕ) (ready : Bool) (rest : Text)
    → n < 16 ^ k
    → d < 16
    → digits_from 16 0 ready (hex k n ++ digit_code d ∷ rest)
      ≡ digits_from 16 (n * 16 + d) true rest
unfolding hex
digits_from-hex zero n d ready rest h k =
    let e : n ≡ 0 = omega arith in rw e (digits_from-digit 16 0 d ready rest k (omega arith))
digits_from-hex (suc k) n d ready rest h l = rw append_assoc (
    digits_from-hex k (n / 16) (n % 16) ready (digit_code d ∷ rest) (omega (arith, pow-suc 16 k))
      (omega arith)
    ∙ rw (digits_from-digit 16 (n / 16 * 16 + n % 16) d true rest l (omega arith))
        (ap (λ a. digits_from 16 (a * 16 + d) true rest) (omega arith)))

hex-ne-nil : (k n : ℕ) → hex (suc k) n ≢ []
unfolding hex
hex-ne-nil k n = append-ne-nil (hex k (n / 16)) (digit_code (n % 16)) []

digits_from-hex_all : (k n : ℕ) → n < 16 ^ suc k → digits_from 16 0 false (hex (suc k) n) ≡ some n
unfolding hex digits_from
digits_from-hex_all k n h =
    digits_from-hex k (n / 16) (n % 16) false [] (omega (arith, pow-suc 16 k)) (omega arith)
    ∙ ap some (omega arith)

-- `int(text, 16)` reads back a hexadecimal numeral of fixed width.
pub to_int-hex : (k n : ℕ) → n < 16 ^ suc k → to_int 16 (hex (suc k) n) ≡ some (pos n)
to_int-hex k n h = rw (
  to_int_of_IsDigit 16 (hex (suc k) n) (All-IsDigit-hex (suc k) n) (hex-ne-nil k n),
  digits_from-hex_all k n h,
)

pub length-hex : (k n : ℕ) → length (hex k n) ≡ k
unfolding hex
length-hex zero n = refl
length-hex (suc k) n =
    omega (arith, length-append (hex k (n / 16)) (digit_code (n % 16) ∷ []), length-hex k (n / 16))
