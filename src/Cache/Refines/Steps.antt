-- ===== src/Cache/Refines/Steps.antt =====
-- The calls of a client that do not write a value that they have read.
use byoda_python.Base.{
  ℕ, ◌+◌, ◌≡◌, refl, ap, inl, inr, Bool, true, false, [], ◌∷◌, Option, none, some, Result, ok,
  raise,
}
use byoda_python.Text.{Text}
use byoda_python.Cache.{Orjson, SqlTable, Row}
use byoda_python.Cache.Sqlite
use byoda_python.Cache.Spec
use byoda_python.Cache.Spec.{
  settle, Entry, Store, Command, Answer, step, spec_step, run, put, current,
}
use byoda_python.Cache.Refines.Rows.{
  Represents-cases, some_row-held, length-held, keep-current, Stores, Agrees, read_lem, put-Stores,
}

module _ {V : Type 0} (orjson : Orjson V) where
  module _ {S : Type 0} (sqlite : SqlTable S) where
    pub exists-Agrees :
        (runs : Bool) (now : ℕ) (s : S) (m : Store V) (key : Text)
        → Stores orjson sqlite s m
        → Agrees orjson sqlite
            (step orjson sqlite s (now, Command.exists runs key))
            (spec_step orjson m (now, Command.exists runs key))
    unfolding step spec_step Sqlite.exists
    exists-Agrees false now s m key h = (refl, h)
    exists-Agrees true now s m key h = (
      ap (λ b. ok (Answer.found (some b)))
          (some_row-held orjson (sqlite.select s key) (m key) (h key)),
      h,
    )

    pub get-Agrees :
        (runs : Bool) (now : ℕ) (s : S) (m : Store V) (key : Text)
        → Stores orjson sqlite s m
        → Agrees orjson sqlite
            (step orjson sqlite s (now, Command.get runs key))
            (spec_step orjson m (now, Command.get runs key))
    unfolding step spec_step
    get-Agrees runs now s m key h = rw (read_lem orjson sqlite runs s m key h) (refl, h)

    pub delete-Agrees :
        (runs : Bool) (now : ℕ) (s : S) (m : Store V) (key : Text)
        → Stores orjson sqlite s m
        → Agrees orjson sqlite
            (step orjson sqlite s (now, Command.delete runs key))
            (spec_step orjson m (now, Command.delete runs key))
    unfolding step spec_step Sqlite.delete
    delete-Agrees false now s m key h = (refl, h)
    delete-Agrees true now s m key h = (
      rw (sqlite.delete-count s key)
          (ap (λ b. ok (Answer.done b)) (length-held orjson (sqlite.select s key) (m key) (h key))),
      put-Stores orjson sqlite s (sqlite.delete s key).0 m key [] none h
          (sqlite.select-delete s key) tt,
    )

    pub purge-Agrees :
        (runs : Bool) (now : ℕ) (s : S) (m : Store V)
        → Stores orjson sqlite s m
        → Agrees orjson sqlite
            (step orjson sqlite s (now, Command.purge runs))
            (spec_step orjson m (now, Command.purge runs))
    unfolding step spec_step Sqlite.purge
    purge-Agrees false now s m h = (refl, h)
    purge-Agrees true now s m h = (
      refl,
      λ k.
          rw (sqlite.select-delete_before s now k)
            (keep-current orjson now (sqlite.select s k) (m k) (h k)),
    )

    -- The insertion, where the value has been written orjson.
    pub inserted-Agrees :
        (now : ℕ) (s : S) (m : Store V) (key content : Text) (v : Option V) (expiration : ℕ)
        → Stores orjson sqlite s m
        → orjson.dumps v ≡ ok content
        → let r = Sqlite.inserted s (
            sqlite.insert s
              (record { key = key; content = content; expires = now + expiration })) in
          let p = Spec.spec_set orjson now m key v expiration in
          (r.1 ≡ p.1) × Stores orjson sqlite r.0 p.0
    inserted-Agrees now s m key content v expiration h e =
        elim (Represents-cases orjson (sqlite.select s key) (m key) (h key)) [
          | inl (no_rows, free) ↦
              let row : Row = record { key = key; content = content; expires = now + expiration } in
              let (next, is_next, wrote) = sqlite.insert-free s row no_rows in
              rw (free, is_next)
                (
                  refl,
                  put-Stores orjson sqlite s next m key (row ∷ [])
                      (some (record { value = v; expires = now + expiration })) h wrote (e, refl),
                )
          | inr (r, x, rows, taken) ↦
              rw
                (
                  sqlite.insert-taken s
                      (record { key = key; content = content; expires = now + expiration }) r []
                      rows,
                  taken,
                )
                (refl, h)
        ]

    pub set-Agrees :
        (runs : Bool) (now : ℕ) (s : S) (m : Store V) (key : Text) (v : Option V) (expiration : ℕ)
        → Stores orjson sqlite s m
        → Agrees orjson sqlite
            (step orjson sqlite s (now, Command.set runs key v expiration))
            (spec_step orjson m (now, Command.set runs key v expiration))
    unfolding step spec_step Sqlite.set
    set-Agrees runs now s m key v expiration h = by_content (orjson.dumps v) refl runs
      where
        by_content :
            (r : Result Text) (e : orjson.dumps v ≡ r) (b : Bool)
            → Agrees orjson sqlite
                (step orjson sqlite s (now, Command.set b key v expiration))
                (spec_step orjson m (now, Command.set b key v expiration))
        by_content (raise x) e b = rw e (refl, h)
        by_content (ok content) e false = rw e (refl, h)
        by_content (ok content) e true =
            let a = inserted-Agrees now s m key content v expiration h e in
            rw e (ap (λ c. ok (Answer.done c)) a.0, a.1)
