-- ===== src/ContentKeys/Tokens.antt =====
-- What a token for restricted content stands for: `ContentKey.generate_token`.
use mathlib.Core.Path.{ap₂}
use mathlib.Core.List.{append_assoc}
use byoda_python.Base.{
  ℕ, zero, suc, ◌+◌, ◌-◌, ◌≤◌, ◌<◌, ◌^◌, ◌≡◌, ◌∙◌, refl, sym, ap, List, [], ◌∷◌, ◌++◌, length, take,
  drop, length-append, All-append, ok-injective, arith,
}
use byoda_python.Text.{Text}
use byoda_python.Text.Laws.{Free}
use byoda_python.Text.Number.{
  decimal, to_int-decimal, to_int, hex, length-hex, All-IsDigit-hex, All-IsDigit-decimal,
  Free-of_IsDigit, IsDigit,
}
use byoda_python.Text.Uuid.{uuid_text, to_uuid, to_uuid-uuid_text, All-take}

-- The text that is hashed, for a member and an asset with a UUID: the parts without separators.
unfoldable pub hashed_text : Text → ℕ → ℕ → ℕ → Text
unfolding decimal uuid_text
hashed_text key service_id member_id asset_id =
    decimal service_id ++ (uuid_text member_id ++ (uuid_text asset_id ++ key))

module _ {A : Type 0} where
  append-injective :
      (xs ys s t : List A) → length xs ≡ length ys → xs ++ s ≡ ys ++ t → (xs ≡ ys) × (s ≡ t)
  append-injective [] [] s t e h = (refl, h)
  append-injective [] (y ∷ ys) s t e h = absurd (omega (arith, e))
  append-injective (x ∷ xs) [] s t e h = absurd (omega (arith, e))
  append-injective (x ∷ xs) (y ∷ ys) s t e h =
      let (same, rest) = append-injective xs ys s t (omega (arith, e)) (cc) in (cc, rest)

  append-injective_right :
      (xs ys s t : List A) → length s ≡ length t → xs ++ s ≡ ys ++ t → (xs ≡ ys) × (s ≡ t)
  append-injective_right xs ys s t e h =
      append-injective xs ys s t
        (omega (arith, e, ap length h, length-append xs s, length-append ys t)) h

  length-take : (n : ℕ) (xs : List A) → n ≤ length xs → length (take n xs) ≡ n
  length-take zero xs h = refl
  length-take (suc n) [] h = absurd (omega (arith, h))
  length-take (suc n) (x ∷ xs) h = ap suc (length-take n xs (omega (arith, h)))

length-drop : {A : Type 0} (n : ℕ) (xs : List A) → length (drop n xs) ≡ length xs - n
length-drop zero xs = omega arith
length-drop (suc n) [] = omega arith
length-drop (suc n) (x ∷ xs) = omega (arith, length-drop n xs)

-- The texts before the first dash, and behind it.
dash-injective :
    (xs ys s t : Text)
    → Free b'-' xs
    → Free b'-' ys
    → xs ++ b'-' ∷ s ≡ ys ++ b'-' ∷ t
    → (xs ≡ ys) × (s ≡ t)
dash-injective [] [] s t f g h = (refl, cc)
dash-injective [] (y ∷ ys) s t f g h = let e : y ≡ b'-' = cc in absurd (g.0 e)
dash-injective (x ∷ xs) [] s t f g h = let e : x ≡ b'-' = cc in absurd (f.0 e)
dash-injective (x ∷ xs) (y ∷ ys) s t f g h =
    let (same, rest) = dash-injective xs ys s t f.1 g.1 (cc) in (cc, rest)

-- A printed UUID behind its first dash.
unfoldable behind : Text → Text
behind h =
    take 4 (drop 8 h)
    ++ b'-' ∷ (take 4 (drop 12 h) ++ b'-' ∷ (take 4 (drop 16 h) ++ b'-' ∷ drop 20 h))

length-group :
    (n : ℕ) (h rest : Text)
    → n + 4 ≤ length h
    → length (take 4 (drop n h) ++ b'-' ∷ rest) ≡ 5 + length rest
length-group n h rest e = omega (
  arith,
  length-append (take 4 (drop n h)) (b'-' ∷ rest),
  length-take 4 (drop n h) (omega (arith, e, length-drop n h)),
)

length-behind : (h : Text) → length h ≡ 32 → length (behind h) ≡ 27
unfolding behind
length-behind h e =
    length-group 8 h (take 4 (drop 12 h) ++ b'-' ∷ (take 4 (drop 16 h) ++ b'-' ∷ drop 20 h))
      (omega (arith, e))
    ∙ ap (λ n. 5 + n)
        (length-group 12 h (take 4 (drop 16 h) ++ b'-' ∷ drop 20 h) (omega (arith, e))
          ∙ ap (λ n. 5 + n) (length-group 16 h (drop 20 h) (omega (arith, e))))
    ∙ omega (arith, e, length-drop 20 h)

uuid_text-behind : (u : ℕ) → uuid_text u ≡ take 8 (hex 32 u) ++ b'-' ∷ behind (hex 32 u)
unfolding uuid_text behind
uuid_text-behind u = refl

length-uuid_text : (u : ℕ) → length (uuid_text u) ≡ 36
length-uuid_text u =
    ap length (uuid_text-behind u)
    ∙ length-append (take 8 (hex 32 u)) (b'-' ∷ behind (hex 32 u))
    ∙ omega (
      arith,
      length-take 8 (hex 32 u) (omega (arith, length-hex 32 u)),
      length-behind (hex 32 u) (length-hex 32 u),
    )

uuid_text-injective : (u v : ℕ) → u < 2 ^ 128 → v < 2 ^ 128 → uuid_text u ≡ uuid_text v → u ≡ v
uuid_text-injective u v b c h =
    ok-injective (sym (to_uuid-uuid_text u b) ∙ ap to_uuid h ∙ to_uuid-uuid_text v c)

decimal-injective : (n m : ℕ) → decimal n ≡ decimal m → n ≡ m
decimal-injective n m h = cc (to_int-decimal n, to_int-decimal m, ap (to_int 10) h)

-- The number and the first group of the UUID behind it have no dash.
Free-start : (n u : ℕ) → Free b'-' (decimal n ++ take 8 (hex 32 u))
Free-start n u = Free-of_IsDigit b'-' (decimal n ++ take 8 (hex 32 u)) refl (
    All-append IsDigit (decimal n) (take 8 (hex 32 u)) (All-IsDigit-decimal n)
      (All-take 8 (hex 32 u) (All-IsDigit-hex 32 u)))

number_and_uuid :
    (n u : ℕ) (rest : Text)
    → decimal n ++ (uuid_text u ++ rest)
      ≡ (decimal n ++ take 8 (hex 32 u)) ++ b'-' ∷ (behind (hex 32 u) ++ rest)
number_and_uuid n u rest =
    ap (λ x. decimal n ++ (x ++ rest)) (uuid_text-behind u)
    ∙ ap (λ x. decimal n ++ x) (append_assoc (take 8 (hex 32 u)) (b'-' ∷ behind (hex 32 u)) rest)
    ∙ sym (append_assoc (decimal n) (take 8 (hex 32 u)) (b'-' ∷ (behind (hex 32 u) ++ rest)))

-- A number with a UUID and a text behind it can be taken apart in one way only.
number_and_uuid-injective :
    (n m u v : ℕ) (s t : Text)
    → u < 2 ^ 128
    → v < 2 ^ 128
    → decimal n ++ (uuid_text u ++ s) ≡ decimal m ++ (uuid_text v ++ t)
    → (n ≡ m) × (u ≡ v) × (s ≡ t)
number_and_uuid-injective n m u v s t b c h =
    let (start, rest) =
      dash-injective (decimal n ++ take 8 (hex 32 u)) (decimal m ++ take 8 (hex 32 v))
        (behind (hex 32 u) ++ s) (behind (hex 32 v) ++ t) (Free-start n u) (Free-start m v)
        (sym (number_and_uuid n u s) ∙ h ∙ number_and_uuid m v t) in
    let (number, group) =
      append-injective_right (decimal n) (decimal m) (take 8 (hex 32 u)) (take 8 (hex 32 v))
        (length-take 8 (hex 32 u) (omega (arith, length-hex 32 u))
          ∙ sym (length-take 8 (hex 32 v) (omega (arith, length-hex 32 v))))
        start in
    let (others, last) =
      append-injective (behind (hex 32 u)) (behind (hex 32 v)) s t
        (length-behind (hex 32 u) (length-hex 32 u)
          ∙ sym (length-behind (hex 32 v) (length-hex 32 v)))
        rest in
    (
      decimal-injective n m number,
      uuid_text-injective u v b c
          (uuid_text-behind u ∙ ap₂ (λ x y. x ++ b'-' ∷ y) group others ∙ sym (uuid_text-behind v)),
      last,
    )

-- The text that is hashed for a token determines the service, the member, the asset and the key, for a
-- member and an asset with UUIDs of 128 bits: tokens of different things hash different texts.
pub hashed_text-injective :
    (key other_key : Text) (s s' m m' a a' : ℕ)
    → m < 2 ^ 128
    → m' < 2 ^ 128
    → a < 2 ^ 128
    → a' < 2 ^ 128
    → hashed_text key s m a ≡ hashed_text other_key s' m' a'
    → (s ≡ s') × (m ≡ m') × (a ≡ a') × (key ≡ other_key)
unfolding hashed_text
hashed_text-injective key other_key s s' m m' a a' bm bm' ba ba' h =
    let (service, member, rest) =
      number_and_uuid-injective s s' m m' (uuid_text a ++ key) (uuid_text a' ++ other_key) bm bm'
        h in
    let (asset, keys) =
      append-injective (uuid_text a) (uuid_text a') key other_key
        (length-uuid_text a ∙ sym (length-uuid_text a')) rest in
    (service, member, uuid_text-injective a a' ba ba' asset, keys)
