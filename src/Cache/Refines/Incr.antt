-- ===== src/Cache/Refines/Incr.antt =====
-- Incrementing and decrementing a counter.
use byoda_python.Base.{
  ℕ, ◌+◌, ◌≡◌, refl, ◌≢◌, ◌⊎◌, inl, inr, Bool, true, false, List, [], ◌∷◌, Option, none, some,
  Result, ok, raise, operational_error, Bool-cases, if◌then◌else◌, ◌>>◌, require, map,
}
use byoda_python.Text.{Text, text_eq}
use byoda_python.Text.Laws.{text_eq→≡}
use byoda_python.Text.Number.{ℤ, pos}
use byoda_python.Cache.{Orjson, SqlTable, Row, max_zero, ◌+ℤ◌}
use byoda_python.Cache.Sqlite
use byoda_python.Cache.Spec
use byoda_python.Cache.Spec.{
  settle, Entry, Store, Command, Answer, step, spec_step, run, put, current,
}
use byoda_python.Cache.Refines.Rows.{Represents, Stores, Agrees, read_lem}

module _ {V : Type 0} (orjson : Orjson V) where
  module _ {S : Type 0} (sqlite : SqlTable S) where
    -- The update of a key that has a value.
    pub update-Stores :
        (s : S) (m : Store V) (key content : Text) (v : Option V) (expires : ℕ)
        → Stores orjson sqlite s m
        → Spec.content orjson (m key) ≢ none
        → orjson.dumps v ≡ ok content
        → Stores orjson sqlite
            (sqlite.update s key content expires)
            (put orjson m key (some (record { value = v; expires = expires })))
    update-Stores s m key content v expires h has e k =
        rw (sqlite.select-update s key content expires k) (at_key (Bool-cases (text_eq k key)))
      where
        there :
            (rows : List Row) (x : Option (Entry V))
            → Represents orjson rows x
            → Spec.content orjson x ≢ none
            → Represents orjson
                (map (λ r. record { key = r.key; content = content; expires = expires }) rows)
                (some (record { value = v; expires = expires }))
        there [] none r n = absurd (n refl)
        there (r ∷ []) (some x) h n = (e, refl)
        there [] (some x) r n = absurd r
        there (r ∷ []) none h n = absurd h
        there (r ∷ q ∷ rows) x h n = absurd h

        at_key :
            (text_eq k key ≡ true) ⊎ (text_eq k key ≡ false)
            → Represents orjson
                (if text_eq k key
                  then map
                      (λ r. record { key = r.key; content = content; expires = expires })
                      (sqlite.select s k)
                  else sqlite.select s k)
                (put orjson m key (some (record { value = v; expires = expires })) k)
        at_key (inl same) =
            rw same (there (sqlite.select s k) (m k) (h k) (rw (text_eq→≡ k key same) has))
        at_key (inr other) = rw other (h k)

    -- The update with its write, where the value has been read.
    abbrev pub write : Bool → S → Text → ℕ → ℕ → Text → Result S
    write writes s key expires n content =
        require writes operational_error >> ok (sqlite.update s key content expires)

    abbrev pub Added : Bool → ℕ → S → Store V → Text → ℤ → ℕ → Option V → Type 0
    Added writes now s m key n expiration v =
        Agrees orjson sqlite
          (settle s (
            Spec.answer Answer.count
              (Sqlite.add_to sqlite orjson (write writes s key (now + expiration)) n s v)))
          (settle m
            (Spec.answer Answer.count (Spec.spec_incr orjson writes now m key n expiration v)))

    pub add_to-Agrees :
        (writes : Bool) (now : ℕ) (s : S) (m : Store V) (key : Text) (n : ℤ) (expiration : ℕ)
        → Stores orjson sqlite s m
        → (v : Option V) → (v ≢ none → Spec.content orjson (m key) ≢ none)
        → Added writes now s m key n expiration v
    add_to-Agrees writes now s m key n expiration h none has = (refl, h)
    add_to-Agrees writes now s m key n expiration h (some w) has = by_int (orjson.to_int w) refl
      where
        by_content :
            (c : ℤ) (r : Result Text) (b : Bool)
            → orjson.to_int w ≡ ok c
            → orjson.dumps (some (orjson.integer (pos (max_zero (c +ℤ n))))) ≡ r
            → Added b now s m key n expiration (some w)
        by_content c (raise x) b i e = rw (i, e) (refl, h)
        by_content c (ok content) false i e = rw (i, e) (refl, h)
        by_content c (ok content) true i e =
            rw (i, e)
              (
                refl,
                update-Stores s m key content (some (orjson.integer (pos (max_zero (c +ℤ n)))))
                    (now + expiration) h (has (λ p. cc)) e,
              )

        by_int :
            (r : Result ℤ) → orjson.to_int w ≡ r → Added writes now s m key n expiration (some w)
        by_int (raise x) i = rw i (refl, h)
        by_int (ok c) i =
            by_content c (orjson.dumps (some (orjson.integer (pos (max_zero (c +ℤ n)))))) writes i
              refl

    pub incr-Agrees :
        (reads writes : Bool) (now : ℕ) (s : S) (m : Store V) (key : Text) (n : ℤ) (expiration : ℕ)
        → Stores orjson sqlite s m
        → Agrees orjson sqlite
            (step orjson sqlite s (now, Command.incr reads writes key n expiration))
            (spec_step orjson m (now, Command.incr reads writes key n expiration))
    unfolding step spec_step Sqlite.incr
    incr-Agrees reads writes now s m key n expiration h =
        rw (read_lem orjson sqlite reads s m key h) (
          add_to-Agrees writes now s m key n expiration h
            (if reads then Spec.content orjson (m key) else none) (has_value reads))
      where
        has_value :
            (b : Bool)
            → (if b then Spec.content orjson (m key) else none) ≢ none
            → Spec.content orjson (m key) ≢ none
        has_value true p = p
        has_value false p = absurd (p refl)

    abbrev pub Refused : S → Store V → Text → ℤ → Option V → Type 0
    Refused s m key n v =
        Agrees orjson sqlite
          (settle s (
            Spec.answer Answer.count (
              Sqlite.add_to sqlite orjson (λ n content. raise operational_error) (Sqlite.negate n) s
                v)))
          (settle m (Spec.answer Answer.count (Spec.spec_decr orjson m key n v)))

    refused :
        (s : S) (m : Store V) (key : Text) (n : ℤ)
        → Stores orjson sqlite s m
        → (v : Option V) → Refused s m key n v
    refused s m key n h none = (refl, h)
    refused s m key n h (some w) = by_int (orjson.to_int w) refl
      where
        by_content :
            (c : ℤ) (r : Result Text)
            → orjson.to_int w ≡ ok c
            → orjson.dumps (some (orjson.integer (pos (max_zero (c +ℤ Sqlite.negate n))))) ≡ r
            → Refused s m key n (some w)
        by_content c (raise x) i e = rw (i, e) (refl, h)
        by_content c (ok content) i e = rw (i, e) (refl, h)

        by_int : (r : Result ℤ) → orjson.to_int w ≡ r → Refused s m key n (some w)
        by_int (raise x) i = rw i (refl, h)
        by_int (ok c) i =
            by_content c
              (orjson.dumps (some (orjson.integer (pos (max_zero (c +ℤ Sqlite.negate n)))))) i refl

    pub decr-Agrees :
        (reads : Bool) (now : ℕ) (s : S) (m : Store V) (key : Text) (n : ℤ) (expiration : ℕ)
        → Stores orjson sqlite s m
        → Agrees orjson sqlite
            (step orjson sqlite s (now, Command.decr reads key n expiration))
            (spec_step orjson m (now, Command.decr reads key n expiration))
    unfolding step spec_step Sqlite.decr
    decr-Agrees reads now s m key n expiration h =
        rw (read_lem orjson sqlite reads s m key h)
          (refused s m key n h (if reads then Spec.content orjson (m key) else none))
