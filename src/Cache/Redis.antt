-- ===== src/Cache/Redis.antt =====
-- The counters of `KVRedis` in byoda/datacache/kv_redis.py, with the annotated keys of
-- byoda/datacache/kv_cache.py.
use byoda_python.Base.{
  ℕ, ◌^◌, ltb, ◌≡◌, Bool, true, false, [], ◌∷◌, ◌++◌, Option, none, some, if◌then◌else◌,
}
use byoda_python.Text.{Text, text_eq, rstrip, is_empty}
use byoda_python.Text.Number.{ℤ, pos, neg, negsuc}
use byoda_python.Cache.{◌+ℤ◌}

-- The signed integers of 64 bits.
abbrev pub is_int64 : ℤ → Bool
is_int64 (pos n) = ltb n (2 ^ 63)
is_int64 (negsuc n) = ltb n (2 ^ 63)

-- The counters of a Redis server, each with the seconds until it expires if it does: what the
-- commands EXISTS, SET with and without EX, INCRBY and DECRBY do to them, the last two while the amount and
-- the sum are signed integers of 64 bits: beyond these they are an error.
pub record RedisDriver (S : Type 0) : Type 0 where
  pub lookup : S → Text → Option (ℤ × Option ℕ)
  pub set : S → Text → ℤ → Option ℕ → S
  pub incr : S → Text → ℤ → S
  pub lookup-set :
      (s : S) (key : Text) (n : ℤ) (ex : Option ℕ) (k : Text)
      → lookup (set s key n ex) k ≡ (if text_eq k key then some (n, ex) else lookup s k)
  pub lookup-incr_some :
      (s : S) (key : Text) (n amount : ℤ) (ex : Option ℕ)
      → lookup s key ≡ some (n, ex)
      → is_int64 amount ≡ true
      → is_int64 (n +ℤ amount) ≡ true
      → lookup (incr s key amount) key ≡ some (n +ℤ amount, ex)
  pub lookup-incr_none :
      (s : S) (key : Text) (amount : ℤ)
      → lookup s key ≡ none
      → is_int64 amount ≡ true
      → lookup (incr s key amount) key ≡ some (amount, none)

-- `KVCache.__init__`: the texts of the server's type, the network's name and the service's id.
unfoldable pub namespace : Text → Text → Text → Text → Text
namespace server_type network_name service_id identifier =
    let prefix = server_type ++ (b':' ∷ (network_name ++ (b'-' ∷ (service_id ++ (b':' ∷ []))))) in
    if is_empty identifier then prefix else prefix ++ (rstrip b':' identifier ++ (b':' ∷ []))

-- `get_annotated_key`
abbrev pub get_annotated_key : Text → Text → Text
get_annotated_key space key = space ++ key

abbrev pub is_there : Option (ℤ × Option ℕ) → Bool
is_there none = false
is_there (some entry) = true

abbrev pub value_of : Option (ℤ × Option ℕ) → ℤ
value_of none = pos 0
value_of (some (n, ex)) = n

abbrev pub negative : ℤ → Bool
negative (pos n) = false
negative (negsuc n) = true

module _ {S : Type 0} (redis : RedisDriver S) (space : Text) where
  unfoldable pub exists : S → Text → Bool
  exists s key = is_there (redis.lookup s (get_annotated_key space key))

  -- `set` of a number with an expiration.
  unfoldable pub set : S → Text → ℤ → ℕ → S
  set s key n expiration = redis.set s (get_annotated_key space key) n (some expiration)

  -- `if not await self.exists(key): await self.set(key, 0, expiration=expiration)`, with the key
  -- that has been annotated: both annotate it again.
  unfoldable pub initialise : S → Text → ℕ → S
  unfolding exists set
  initialise s annotated expiration =
      if exists s annotated then s else set s annotated (pos 0) expiration

  unfoldable pub incr : S → Text → ℤ → ℕ → S × ℤ
  unfolding initialise
  incr s key amount expiration =
      let annotated = get_annotated_key space key in
      let next = redis.incr (initialise s annotated expiration) annotated amount in
      (next, value_of (redis.lookup next annotated))

  unfoldable pub decr : S → Text → ℕ → ℕ → S × ℤ
  unfolding initialise
  decr s key amount expiration =
      let annotated = get_annotated_key space key in
      let next = redis.incr (initialise s annotated expiration) annotated (neg amount) in
      let value = value_of (redis.lookup next annotated) in
      if negative value then (redis.set next annotated (pos 0) none, pos 0) else (next, value)
