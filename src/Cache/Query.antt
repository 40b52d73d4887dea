-- ===== src/Cache/Query.antt =====
-- `QueryCache` of byoda/datacache/querycache.py: the ids of the queries that a pod has seen.
use byoda_python.Base.{ℕ, ◌*◌, Bool, Option, Result}
use byoda_python.Text.Uuid.{uuid_text}
use byoda_python.Cache.{Orjson, SqlTable}
use byoda_python.Cache.Spec.{Command, Answer, step}

-- `KVCache.DEFAULT_CACHE_EXPIRATION`: three days in seconds.
abbrev pub default_expiration : ℕ
default_expiration = 3 * 24 * 60 * 60

-- The calls on a query cache.
pub data QueryCall (V : Type 0) : Type 0 where
  exists delete : Bool → ℕ → QueryCall V
  set : Bool → ℕ → Option V → QueryCall V
  purge : Bool → QueryCall V

-- Each method calls the one of its backend, with `str(query_id)`.
abbrev pub backend_call : {V : Type 0} → QueryCall V → Command V
backend_call (exists runs query_id) = Command.exists runs (uuid_text query_id)
backend_call (delete runs query_id) = Command.delete runs (uuid_text query_id)
backend_call (set runs query_id value) =
    Command.set runs (uuid_text query_id) value default_expiration
backend_call (purge runs) = Command.purge runs

module _ {S V : Type 0} (sqlite : SqlTable S) (orjson : Orjson V) where
  unfoldable pub query_step : S → ℕ × QueryCall V → S × Result (Answer V)
  query_step s (now, call) = step orjson sqlite s (now, backend_call call)
