-- ===== src/Cache/Spec.antt =====
-- What a cache promises: a map from keys to values with the time at which each expires, and the
-- commands of a client as steps on it.
use byoda_python.Base.{
  ℕ, ◌+◌, Bool, true, false, List, [], ◌∷◌, Option, none, some, Result, ok, raise,
  operational_error, ◌>>=◌, ◌>>◌, require, ltb, if◌then◌else◌,
}
use byoda_python.Text.{Text, text_eq}
use byoda_python.Text.Number.{ℤ, pos}
use byoda_python.Cache.{Orjson, SqlTable, max_zero, ◌+ℤ◌}
use byoda_python.Cache.Sqlite

pub record Entry (V : Type 0) : Type 0 where
  pub value : Option V
  pub expires : ℕ

abbrev pub Store : Type 0 → Type 0
Store V = Text → Option (Entry V)

-- The calls of a client; the flags tell which statements run.
pub data Command (V : Type 0) : Type 0 where
  exists get delete : Bool → Text → Command V
  set : Bool → Text → Option V → ℕ → Command V
  incr : Bool → Bool → Text → ℤ → ℕ → Command V
  decr : Bool → Text → ℤ → ℕ → Command V
  purge : Bool → Command V

-- The count that a purge returns is left out.
pub data Answer (V : Type 0) : Type 0 where
  found : Option Bool → Answer V
  got : Option V → Answer V
  done : Bool → Answer V
  count : Option ℕ → Answer V
  purged : Answer V

-- A call that raises leaves the state as it was.
abbrev pub settle : {A S : Type 0} → S → Result (S × A) → S × Result A
settle s (raise e) = (s, raise e)
settle s (ok (next, a)) = (next, ok a)

abbrev pub answer : {A B S : Type 0} → (A → B) → Result (S × A) → Result (S × B)
answer f (raise e) = raise e
answer f (ok (s, a)) = ok (s, f a)

abbrev pub run : {S C A : Type 0} → (S → C → S × A) → S → List C → S × List A
run step s [] = (s, [])
run step s (c ∷ cs) = let rest = run step (step s c).0 cs in (rest.0, (step s c).1 ∷ rest.1)

module _ {V : Type 0} (orjson : Orjson V) where
  abbrev pub put : Store V → Text → Option (Entry V) → Store V
  put m key e = λ k. if text_eq k key then e else m k

  abbrev pub held : Option (Entry V) → Bool
  held none = false
  held (some e) = true

  abbrev pub content : Option (Entry V) → Option V
  content none = none
  content (some e) = e.value

  abbrev pub current : ℕ → Option (Entry V) → Option (Entry V)
  current now none = none
  current now (some e) = if ltb e.expires now then none else some e

  -- A key that is there keeps its value.
  abbrev pub spec_set : ℕ → Store V → Text → Option V → ℕ → Store V × Bool
  spec_set now m key value expiration =
      if held (m key)
      then (m, false)
      else (put m key (some (record { value = value; expires = now + expiration })), true)

  abbrev pub spec_incr : Bool → ℕ → Store V → Text → ℤ → ℕ → Option V → Result (Store V × Option ℕ)
  spec_incr writes now m key value expiration none = ok (m, none)
  spec_incr writes now m key value expiration (some v) = do
    n ← orjson.to_int v
    s ← orjson.dumps (some (orjson.integer (pos (max_zero (n +ℤ value)))))
    require writes operational_error
    ok (
      put m key (
          some (record {
            value = some (orjson.integer (pos (max_zero (n +ℤ value))));
            expires = now + expiration;
          })),
      some (max_zero (n +ℤ value)),
    )

  -- A decrement is not carried out: the statement that is to write it is refused.
  abbrev pub spec_decr : Store V → Text → ℤ → Option V → Result (Store V × Option ℕ)
  spec_decr m key value none = ok (m, none)
  spec_decr m key value (some v) = do
    n ← orjson.to_int v
    s ← orjson.dumps (some (orjson.integer (pos (max_zero (n +ℤ Sqlite.negate value)))))
    raise operational_error

  unfoldable pub spec_step : Store V → ℕ × Command V → Store V × Result (Answer V)
  spec_step m (now, exists runs key) = (m, ok (found (if runs then some (held (m key)) else none)))
  spec_step m (now, get runs key) = (m, ok (got (if runs then content (m key) else none)))
  spec_step m (now, delete runs key) =
      if runs then (put m key none, ok (done (held (m key)))) else (m, ok (done false))
  spec_step m (now, set runs key v expiration) = settle m (
      answer done (
        orjson.dumps v >>= λ s.
        require runs operational_error >> ok (spec_set now m key v expiration)))
  spec_step m (now, incr reads writes key n expiration) = settle m (
      answer count
        (spec_incr writes now m key n expiration (if reads then content (m key) else none)))
  spec_step m (now, decr reads key n expiration) =
      settle m (answer count (spec_decr m key n (if reads then content (m key) else none)))
  spec_step m (now, purge runs) =
      if runs then ((λ k. current now (m k)), ok purged) else (m, ok purged)

  module _ {S : Type 0} (sqlite : SqlTable S) where
    unfoldable pub step : S → ℕ × Command V → S × Result (Answer V)
    unfolding Sqlite.exists Sqlite.get Sqlite.set Sqlite.incr Sqlite.decr Sqlite.delete Sqlite.purge
    step s (now, exists runs key) = (s, ok (found (Sqlite.exists sqlite runs s key)))
    step s (now, get runs key) =
        settle s (Sqlite.get sqlite orjson runs s key >>= λ v. ok (s, got v))
    step s (now, delete runs key) = let r = Sqlite.delete sqlite runs s key in (r.0, ok (done r.1))
    step s (now, set runs key v expiration) =
        settle s (answer done (Sqlite.set sqlite orjson runs now s key v expiration))
    step s (now, incr reads writes key n expiration) =
        settle s (answer count (Sqlite.incr sqlite orjson reads writes now s key n expiration))
    step s (now, decr reads key n expiration) =
        settle s (answer count (Sqlite.decr sqlite orjson reads now s key n expiration))
    step s (now, purge runs) = ((Sqlite.purge sqlite runs now s).0, ok purged)
