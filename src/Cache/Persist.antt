-- ===== src/Cache/Persist.antt =====
-- The values of a Redis counter, and its expiration.
use byoda_python.Base.{ℕ, ◌≡◌, refl, ◌⊎◌, true, List, [], ◌∷◌, ◌++◌, none, some, if◌then◌else◌}
use byoda_python.Text.{Text}
use byoda_python.Text.Number.{ℤ, pos, neg, negsuc}
use byoda_python.Cache.{◌+ℤ◌, max_zero}
use byoda_python.Cache.Redis
use byoda_python.Cache.Redis.{RedisDriver, negative, is_int64}

-- `incr` and `decr` with their amounts and expirations.
pub data Count : Type 0 where
  incr : ℤ → ℕ → Count
  decr : ℕ → ℕ → Count

-- What a counter comes to.
abbrev pub counted : ℤ → Count → ℤ
counted n (incr amount expiration) = n +ℤ amount
counted n (decr amount expiration) = pos (max_zero (n +ℤ neg amount))

-- What is added.
abbrev pub change : Count → ℤ
change (incr amount expiration) = amount
change (decr amount expiration) = neg amount

-- The amounts and the sums are signed integers of 64 bits.
abbrev pub InRange : ℤ → List Count → Type 0
InRange n [] = Unit
InRange n (c ∷ calls) =
    (is_int64 (change c) ≡ true) × (is_int64 (n +ℤ change c) ≡ true) × InRange (counted n c) calls

abbrev pub count_step : {S : Type 0} → RedisDriver S → Text → Text → S → Count → S × ℤ
count_step redis space key s (incr amount expiration) =
    Redis.incr redis space s key amount expiration
count_step redis space key s (decr amount expiration) =
    Redis.decr redis space s key amount expiration

module _ {S : Type 0} (redis : RedisDriver S) (space : Text) where
  -- The counter has that value and no expiration; one that is not there counts as zero.
  abbrev pub Persists : S → Text → ℤ → Type 0
  Persists s key n =
      (redis.lookup s (space ++ key) ≡ some (n, none))
      ⊎ ((redis.lookup s (space ++ key) ≡ none) × (n ≡ pos 0))

  decr_value : (n : ℤ) → (if negative n then pos 0 else n) ≡ pos (max_zero n)
  decr_value (pos n) = refl
  decr_value (negsuc n) = refl
