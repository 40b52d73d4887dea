-- ===== src/Cache/Refines.antt =====
-- The SQLite cache against the map that it promises, over any calls.
pub mod Rows
pub mod Steps
pub mod Incr
use byoda_python.Base.{
  ℕ, ◌+◌, ◌≡◌, refl, ap, sym, ◌∙◌, ◌≢◌, ◌⊎◌, inl, inr, Bool, true, false, List, [], ◌∷◌, Option,
  none, some, Result, ok, raise, ltb, operational_error, Bool-cases, if◌then◌else◌, arith, length,
  ◌>>=◌, ◌>>◌, require, map,
}
use byoda_python.Text.{Text, text_eq}
use byoda_python.Text.Laws.{text_eq→≡, text_eq_refl}
use byoda_python.Text.Number.{ℤ, pos}
use byoda_python.Cache.{Orjson, SqlTable, Row, is_current, keep, max_zero, ◌+ℤ◌}
use byoda_python.Cache.Sqlite
use byoda_python.Cache.Spec
use byoda_python.Cache.Spec.{
  settle, Entry, Store, Command, Answer, step, spec_step, run, put, current,
}
use byoda_python.Cache.Refines.Rows.{
  Represents, Represents-cases, some_row-held, length-held, keep-current, written, Stores, Agrees,
  read_lem, put-Stores,
}
use byoda_python.Cache.Refines.Steps.{
  exists-Agrees, get-Agrees, delete-Agrees, purge-Agrees, set-Agrees,
}
use byoda_python.Cache.Refines.Incr.{incr-Agrees, decr-Agrees}

module _ {V : Type 0} (orjson : Orjson V) where
  module _ {S : Type 0} (sqlite : SqlTable S) where
    step-Agrees :
        (s : S) (m : Store V) (c : ℕ × Command V)
        → Stores orjson sqlite s m
        → Agrees orjson sqlite (step orjson sqlite s c) (spec_step orjson m c)
    step-Agrees s m (now, Command.exists runs key) h =
        exists-Agrees orjson sqlite runs now s m key h
    step-Agrees s m (now, Command.get runs key) h = get-Agrees orjson sqlite runs now s m key h
    step-Agrees s m (now, Command.delete runs key) h =
        delete-Agrees orjson sqlite runs now s m key h
    step-Agrees s m (now, Command.set runs key v expiration) h =
        set-Agrees orjson sqlite runs now s m key v expiration h
    step-Agrees s m (now, Command.incr reads writes key n expiration) h =
        incr-Agrees orjson sqlite reads writes now s m key n expiration h
    step-Agrees s m (now, Command.decr reads key n expiration) h =
        decr-Agrees orjson sqlite reads now s m key n expiration h
    step-Agrees s m (now, Command.purge runs) h = purge-Agrees orjson sqlite runs now s m h

    -- Whatever the clients call of exists, get, set, incr, decr, delete and purge, at whatever times
    -- and with whatever statements refused, a table that stores a map gives the answers of the map,
    -- exceptions included, and stores what the map has become. The count that purge returns is left
    -- out, and the map does not promise a decrement: of a key with an integer it raises an
    -- OperationalError.
    pub run-Agrees :
        (s : S) (m : Store V) (calls : List (ℕ × Command V))
        → Stores orjson sqlite s m
        → let concrete = run (step orjson sqlite) s calls in
          let promised = run (spec_step orjson) m calls in
          (concrete.1 ≡ promised.1) × Stores orjson sqlite concrete.0 promised.0
    run-Agrees s m [] h = (refl, h)
    run-Agrees s m (c ∷ calls) h =
        let now = step-Agrees s m c h in
        let later = run-Agrees (step orjson sqlite s c).0 (spec_step orjson m c).0 calls now.1 in
        (rw (now.0, later.0), later.1)
