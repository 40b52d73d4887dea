-- ===== src/Text/Uuid.antt =====
-- Python's `uuid.UUID`: the constructor from a text, and `str`. The value is the 128-bit number.
use native.Mathlib.Nat.{suc-add, zero-add}
use byoda_python.Base.{
  ℕ, zero, suc, ◌+◌, ◌-◌, ◌<◌, ◌^◌, ◌≡◌, refl, ap, ◌≢◌, Bool, true, false, ◌||◌, [], ◌∷◌, ◌++◌,
  arith, ◌==◌, ltb, length, take, drop, All, All-append, Result, ok, raise, value_error, ◌>>=◌,
  ◌>>◌, if◌then◌else◌, or_raise, require,
}
use byoda_python.Text.{Text, codes, starts_with}
use byoda_python.Text.Laws.{Free}
use byoda_python.Text.Number.{
  ℤ, digit_code, pos, negsuc, to_int, hex, IsDigit, is_digit, All-IsDigit-hex, length-hex,
  to_int-hex,
}

-- `text.replace(part, '')`; the number counts what is left of a found part.
delete_from : Text → ℕ → Text → Text
delete_from part skip [] = []
delete_from part (suc skip) (c ∷ s) = delete_from part skip s
delete_from part zero (c ∷ s) =
    let gone = delete_from part (length part - 1) s in
    let kept = delete_from part zero s in if starts_with (c ∷ s) part then gone else c ∷ kept

unfoldable pub delete : Text → Text → Text
unfolding delete_from starts_with
delete part s = delete_from part 0 s

abbrev is_brace : ℕ → Bool
is_brace c = c == b'{' || c == b'}'

lstrip_braces : Text → Text
lstrip_braces [] = []
lstrip_braces (c ∷ s) = let rest = lstrip_braces s in if is_brace c then rest else c ∷ s

rstrip_braces : Text → Text
rstrip_braces [] = []
rstrip_braces (c ∷ s) = elim (rstrip_braces s) [
  | [] ↦ if is_brace c then [] else c ∷ []
  | d ∷ t ↦ c ∷ d ∷ t
]

-- `text.replace('-', '')`
without_dashes : Text → Text
without_dashes [] = []
without_dashes (c ∷ s) = let rest = without_dashes s in if c == b'-' then rest else c ∷ rest

-- `text.replace('urn:', '').replace('uuid:', '').strip('{}').replace('-', '')`
unfoldable pub bare : Text → Text
unfolding delete lstrip_braces rstrip_braces without_dashes
bare s =
    without_dashes
      (rstrip_braces (lstrip_braces (delete (codes "uuid:") (delete (codes "urn:") s))))

abbrev non_negative : ℤ → Result ℕ
non_negative (pos n) = if ltb n (2 ^ 128) then ok n else raise value_error
non_negative (negsuc n) = raise value_error

-- `UUID(text)`
unfoldable pub to_uuid : Text → Result ℕ
unfolding bare to_int
to_uuid s = do
  let digits = bare s
  require (length digits == 32) value_error
  n ← or_raise value_error (to_int 16 digits)
  non_negative n

-- `str(uuid)`: the 32 digits in groups of 8, 4, 4, 4 and 12.
unfoldable pub dashed : Text → Text
dashed h =
    take 8 h
    ++ b'-'
      ∷ (take 4 (drop 8 h)
          ++ b'-' ∷ (take 4 (drop 12 h) ++ b'-' ∷ (take 4 (drop 16 h) ++ b'-' ∷ drop 20 h)))

unfoldable pub uuid_text : ℕ → Text
unfolding hex dashed
uuid_text n = dashed (hex 32 n)

-- The characters of a printed UUID.
abbrev pub is_uuid_code : ℕ → Bool
is_uuid_code c = is_digit c || c == b'-'

abbrev pub IsUuidCode : ℕ → Type 0
IsUuidCode c = is_uuid_code c ≡ true

All-IsUuidCode : (s : Text) → All IsDigit s → All IsUuidCode s
All-IsUuidCode [] h = tt
All-IsUuidCode (c ∷ s) h = (ground (arith, h.0), All-IsUuidCode s h.1)

pub All-take : (n : ℕ) (s : Text) → All IsDigit s → All IsDigit (take n s)
All-take zero s h = tt
All-take (suc n) [] h = tt
All-take (suc n) (c ∷ s) h = (h.0, All-take n s h.1)

All-drop : (n : ℕ) (s : Text) → All IsDigit s → All IsDigit (drop n s)
All-drop zero s h = h
All-drop (suc n) [] h = tt
All-drop (suc n) (c ∷ s) h = All-drop n s h.1

-- One group of digits and the dash behind it.
All-group : (s t : Text) → All IsDigit s → All IsUuidCode t → All IsUuidCode (s ++ b'-' ∷ t)
All-group s t h k = All-append IsUuidCode s (b'-' ∷ t) (All-IsUuidCode s h) (refl, k)

pub All-IsUuidCode-dashed : (h : Text) → All IsDigit h → All IsUuidCode (dashed h)
unfolding dashed
All-IsUuidCode-dashed h d = All-group (take 8 h) _ (All-take 8 h d) (
    All-group (take 4 (drop 8 h)) _ (All-take 4 (drop 8 h) (All-drop 8 h d)) (
      All-group (take 4 (drop 12 h)) _ (All-take 4 (drop 12 h) (All-drop 12 h d)) (
        All-group (take 4 (drop 16 h)) _ (All-take 4 (drop 16 h) (All-drop 16 h d))
          (All-IsUuidCode (drop 20 h) (All-drop 20 h d)))))

pub Free-of_IsUuidCode :
    (sep : ℕ) (s : Text) → is_uuid_code sep ≡ false → All IsUuidCode s → Free sep s
Free-of_IsUuidCode sep [] h k = tt
Free-of_IsUuidCode sep (c ∷ s) h k = (λ e. cc (ap is_uuid_code e), Free-of_IsUuidCode sep s h k.1)

pub Free-uuid_text : (sep n : ℕ) → is_uuid_code sep ≡ false → Free sep (uuid_text n)
unfolding uuid_text
Free-uuid_text sep n h =
    Free-of_IsUuidCode sep (dashed (hex 32 n)) h
      (All-IsUuidCode-dashed (hex 32 n) (All-IsDigit-hex 32 n))

delete_of_Free : (c : ℕ) (part s : Text) → Free c s → delete (c ∷ part) s ≡ s
unfolding delete
delete_of_Free c part [] h = refl
delete_of_Free c part (d ∷ s) h = ground (arith, delete_of_Free c part s h.1)

lstrip_braces_of_IsUuidCode : (s : Text) → All IsUuidCode s → lstrip_braces s ≡ s
unfolding lstrip_braces
lstrip_braces_of_IsUuidCode [] h = refl
lstrip_braces_of_IsUuidCode (c ∷ s) h = ground (arith, h.0)

rstrip_braces_of_IsUuidCode : (s : Text) → All IsUuidCode s → rstrip_braces s ≡ s
unfolding rstrip_braces
rstrip_braces_of_IsUuidCode [] h = refl
rstrip_braces_of_IsUuidCode (c ∷ []) h = ground (arith, h.0)
rstrip_braces_of_IsUuidCode (c ∷ d ∷ s) h =
    rw (rstrip_braces_of_IsUuidCode (d ∷ s) h.1, rstrip_braces)

without_dashes_of_IsDigit : (s : Text) → All IsDigit s → without_dashes s ≡ s
unfolding without_dashes
without_dashes_of_IsDigit [] h = refl
without_dashes_of_IsDigit (c ∷ s) h = ground (arith, h.0, without_dashes_of_IsDigit s h.1)

without_dashes-group :
    (s t : Text) → All IsDigit s → without_dashes (s ++ b'-' ∷ t) ≡ s ++ without_dashes t
unfolding without_dashes
without_dashes-group [] t h = refl
without_dashes-group (c ∷ s) t h = ground (arith, h.0, without_dashes-group s t h.1)

take-append-drop : (n : ℕ) (s : Text) → take n s ++ drop n s ≡ s
take-append-drop zero s = refl
take-append-drop (suc n) [] = refl
take-append-drop (suc n) (c ∷ s) = ap (◌∷◌ c) (take-append-drop n s)

drop-drop : (n m : ℕ) (s : Text) → drop m (drop n s) ≡ drop (n + m) s
drop-drop zero m s = rw zero-add
drop-drop (suc n) m (c ∷ s) = rw (suc-add) (drop-drop n m s)
drop-drop (suc n) zero [] = rw suc-add
drop-drop (suc n) (suc m) [] = rw suc-add

-- The next group.
take-drop : (n m : ℕ) (s : Text) → take m (drop n s) ++ drop (n + m) s ≡ drop n s
take-drop n m s = rw (← drop-drop n m s) (take-append-drop m (drop n s))

without_dashes-dashed : (h : Text) → All IsDigit h → without_dashes (dashed h) ≡ h
unfolding dashed
without_dashes-dashed h d =
    rw
      (
        without_dashes-group (take 8 h) _ (All-take 8 h d),
        without_dashes-group (take 4 (drop 8 h)) _ (All-take 4 (drop 8 h) (All-drop 8 h d)),
        without_dashes-group (take 4 (drop 12 h)) _ (All-take 4 (drop 12 h) (All-drop 12 h d)),
        without_dashes-group (take 4 (drop 16 h)) _ (All-take 4 (drop 16 h) (All-drop 16 h d)),
        without_dashes_of_IsDigit (drop 20 h) (All-drop 20 h d),
        take-drop 16 4 h,
        take-drop 12 4 h,
        take-drop 8 4 h,
      )
      (take-append-drop 8 h)

bare-dashed : (h : Text) → All IsDigit h → bare (dashed h) ≡ h
unfolding bare
bare-dashed h d =
    let codes_of : All IsUuidCode (dashed h) = All-IsUuidCode-dashed h d in
    let no_u : Free b'u' (dashed h) = Free-of_IsUuidCode b'u' (dashed h) refl codes_of in
    rw
      (
        delete_of_Free b'u' (codes "rn:") (dashed h) no_u,
        delete_of_Free b'u' (codes "uid:") (dashed h) no_u,
        lstrip_braces_of_IsUuidCode (dashed h) codes_of,
        rstrip_braces_of_IsUuidCode (dashed h) codes_of,
      )
      (without_dashes-dashed h d)

group-ne-nil : (s t : Text) → s ++ b'-' ∷ t ≢ []
group-ne-nil [] t = cc
group-ne-nil (c ∷ s) t = cc

-- `UUID` reads back what `str` prints.
pub to_uuid-uuid_text : (n : ℕ) → n < 2 ^ 128 → to_uuid (uuid_text n) ≡ ok n
unfolding to_uuid uuid_text
to_uuid-uuid_text n h =
    rw (bare-dashed (hex 32 n) (All-IsDigit-hex 32 n), length-hex 32 n, to_int-hex 31 n h)
      (ground arith)

uuid_text_run :
    uuid_text 0x123e4567e89b12d3a456426614174000 ≡ codes "123e4567-e89b-12d3-a456-426614174000"
unfolding uuid_text digit_code
uuid_text_run = refl

pub uuid_text-ne-nil : (n : ℕ) → uuid_text n ≢ []
unfolding uuid_text
uuid_text-ne-nil n = group-ne-nil (take 8 (hex 32 n)) _

pub All-IsUuidCode-uuid_text : (n : ℕ) → All IsUuidCode (uuid_text n)
unfolding uuid_text
All-IsUuidCode-uuid_text n = All-IsUuidCode-dashed (hex 32 n) (All-IsDigit-hex 32 n)
