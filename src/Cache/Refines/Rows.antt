-- ===== src/Cache/Refines/Rows.antt =====
-- The rows of the table against the entries of the map.
use byoda_python.Base.{
  ℕ, ◌≡◌, refl, ◌⊎◌, inl, inr, Bool, true, false, List, [], ◌∷◌, Option, none, some, Result, ok,
  ltb, Bool-cases, if◌then◌else◌, length,
}
use byoda_python.Text.{Text, text_eq}
use byoda_python.Cache.{Orjson, SqlTable, Row, is_current, keep}
use byoda_python.Cache.Sqlite
use byoda_python.Cache.Spec
use byoda_python.Cache.Spec.{
  settle, Entry, Store, Command, Answer, step, spec_step, run, put, current,
}

module _ {V : Type 0} (orjson : Orjson V) where
  -- The rows that a key selects, and what the map holds for it.
  abbrev pub Represents : List Row → Option (Entry V) → Type 0
  Represents [] none = Unit
  Represents [] (some e) = ⊥
  Represents (r ∷ []) (some e) = (orjson.dumps e.value ≡ ok r.content) × (r.expires ≡ e.expires)
  Represents (r ∷ []) none = ⊥
  Represents (r ∷ q ∷ rows) e = ⊥

  pub Represents-cases :
      (rows : List Row) (e : Option (Entry V))
      → Represents rows e
      → ((rows ≡ []) × (e ≡ none)) ⊎ ((r : Row) × (x : Entry V) × (rows ≡ r ∷ []) × (e ≡ some x))
  Represents-cases [] none h = inl (refl, refl)
  Represents-cases (r ∷ []) (some e) h = inr (r, e, refl, refl)
  Represents-cases [] (some e) h = absurd h
  Represents-cases (r ∷ []) none h = absurd h
  Represents-cases (r ∷ q ∷ rows) e h = absurd h

  pub some_row-held :
      (rows : List Row) (e : Option (Entry V))
      → Represents rows e
      → Sqlite.some_row rows ≡ Spec.held orjson e
  some_row-held [] none h = refl
  some_row-held (r ∷ []) (some e) h = refl
  some_row-held [] (some e) h = absurd h
  some_row-held (r ∷ []) none h = absurd h
  some_row-held (r ∷ q ∷ rows) e h = absurd h

  pub length-held :
      (rows : List Row) (e : Option (Entry V))
      → Represents rows e
      → ltb 0 (length rows) ≡ Spec.held orjson e
  length-held [] none h = refl
  length-held (r ∷ []) (some e) h = refl
  length-held [] (some e) h = absurd h
  length-held (r ∷ []) none h = absurd h
  length-held (r ∷ q ∷ rows) e h = absurd h

  pub keep-current :
      (now : ℕ) (rows : List Row) (e : Option (Entry V))
      → Represents rows e
      → Represents (keep (is_current now) rows) (current orjson now e)
  keep-current now [] none h = tt
  keep-current now [] (some e) h = absurd h
  keep-current now (r ∷ []) none h = absurd h
  keep-current now (r ∷ q ∷ rows) e h = absurd h
  keep-current now (r ∷ []) (some e) h = elim (Bool-cases (ltb e.expires now)) [
    | inl late ↦ simp (h.1, late) tt
    | inr early ↦ simp (h.1, early) (h.0, refl)
  ]

  -- A key that is written anew, beside the others.
  pub written :
      (k key : Text) (old new : List Row) (m : Store V) (e : Option (Entry V))
      → Represents new e
      → Represents old (m k)
      → Represents (if text_eq k key then new else old) (put orjson m key e k)
  written k key old new m e h kept = elim (Bool-cases (text_eq k key)) [
    | inl same ↦ rw same h
    | inr other ↦ rw other kept
  ]

  module _ {S : Type 0} (sqlite : SqlTable S) where
    abbrev pub Stores : S → Store V → Type 0
    Stores s m = (k : Text) → Represents (sqlite.select s k) (m k)

    -- A step gives the promised answer, and the map's next state is stored.
    abbrev pub Agrees : S × Result (Answer V) → Store V × Result (Answer V) → Type 0
    Agrees (s, a) (m, b) = (a ≡ b) × Stores s m

    -- The value that a statement reads.
    pub read_lem :
        (runs : Bool) (s : S) (m : Store V) (key : Text)
        → Stores s m
        → Sqlite.get sqlite orjson runs s key
          ≡ ok (if runs then Spec.content orjson (m key) else none)
    unfolding Sqlite.get
    read_lem false s m key h = refl
    read_lem true s m key h = read_rows (sqlite.select s key) (m key) (h key)
      where
        read_rows :
            (rows : List Row) (e : Option (Entry V))
            → Represents rows e
            → Sqlite.value_of sqlite orjson rows ≡ ok (Spec.content orjson e)
        read_rows [] none h = refl
        read_rows (r ∷ []) (some e) h = orjson.loads-dumps e.value r.content h.0
        read_rows [] (some e) h = absurd h
        read_rows (r ∷ []) none h = absurd h
        read_rows (r ∷ q ∷ rows) e h = absurd h

    pub put-Stores :
        (s next : S) (m : Store V) (key : Text) (rows : List Row) (e : Option (Entry V))
        → Stores s m
        → ((k : Text) → sqlite.select next k ≡ (if text_eq k key then rows else sqlite.select s k))
        → Represents rows e
        → Stores next (put orjson m key e)
    put-Stores s next m key rows e h wrote r k =
        rw (wrote k) (written k key (sqlite.select s k) rows m e r (h k))
