-- ===== src/Cache/Once.antt =====
-- A query id is new once, until it has expired or is deleted.
use byoda_python.Base.{
  ℕ, ◌+◌, ◌≤◌, ◌≡◌, ◌≢◌, refl, sym, inl, inr, Bool, true, false, List, [], ◌∷◌, Option, Result, ok,
  raise, Bool-cases, arith, All,
}
use byoda_python.Text.{Text, text_eq}
use byoda_python.Text.Laws.{text_eq→≡, text_eq_refl}
use byoda_python.Text.Uuid.{uuid_text}
use byoda_python.Cache.{Orjson, SqlTable, Row, keep, is_current}
use byoda_python.Cache.Sqlite
use byoda_python.Cache.Spec.{Answer, step, run}
use byoda_python.Cache.Query.{QueryCall, query_step, default_expiration}

-- No call deletes the id, and every purge is at a time up to `last`.
abbrev pub Spares : {V : Type 0} → ℕ → ℕ → ℕ × QueryCall V → Type 0
Spares query_id last (now, QueryCall.delete runs other) = uuid_text other ≢ uuid_text query_id
Spares query_id last (now, QueryCall.purge runs) = now ≤ last
Spares query_id last (now, call) = Unit

module _ {S V : Type 0} (sqlite : SqlTable S) (orjson : Orjson V) where
  -- A row is there for the key that no purge up to `last` takes away.
  abbrev Lasts : S → Text → ℕ → Type 0
  Lasts s key last =
      (r : Row) × (rows : List Row) × (sqlite.select s key ≡ r ∷ rows) × (last ≤ r.expires)

  -- What an insertion leaves of a row.
  inserted-Lasts :
      (s : S) (row : Row) (key : Text) (last : ℕ)
      → Lasts s key last
      → Lasts (Sqlite.inserted s (sqlite.insert s row)).0 key last
  inserted-Lasts s row key last (r, rows, e, h) = by_rows (sqlite.select s row.key) refl
    where
      by_rows :
          (others : List Row)
          → sqlite.select s row.key ≡ others
          → Lasts (Sqlite.inserted s (sqlite.insert s row)).0 key last
      by_rows (x ∷ xs) k = rw (sqlite.insert-taken s row x xs k) (r, rows, e, h)
      by_rows [] k =
          let (next, is_next, wrote) = sqlite.insert-free s row k in
          rw is_next (elim (Bool-cases (text_eq key row.key)) [
            | inl same ↦
                let none_there : sqlite.select s key ≡ [] = rw (text_eq→≡ key row.key same) k in
                absurd (cc (e, none_there))
            | inr other ↦ (r, rows, rw (wrote key, other) e, h)
          ])

  keep-Lasts :
      (now : ℕ) (last : ℕ) (r : Row) (rows : List Row)
      → now ≤ last
      → last ≤ r.expires
      → keep (is_current now) (r ∷ rows) ≡ r ∷ keep (is_current now) rows
  keep-Lasts now last r rows h k = ground arith

  call-Lasts :
      (s : S) (query_id last : ℕ) (call : ℕ × QueryCall V)
      → Spares query_id last call
      → Lasts s (uuid_text query_id) last
      → Lasts (query_step sqlite orjson s call).0 (uuid_text query_id) last
  unfolding query_step step Sqlite.delete Sqlite.set Sqlite.purge
  call-Lasts s query_id last (now, QueryCall.exists runs other) h l = l
  call-Lasts s query_id last (now, QueryCall.delete false other) h l = l
  call-Lasts s query_id last (now, QueryCall.delete true other) h (r, rows, e, late) =
      elim (Bool-cases (text_eq (uuid_text query_id) (uuid_text other))) [
        | inl same ↦ absurd (h (sym (text_eq→≡ (uuid_text query_id) (uuid_text other) same)))
        | inr differs ↦ (
          r,
          rows,
          rw (sqlite.select-delete s (uuid_text other) (uuid_text query_id), differs) e,
          late,
        )
      ]
  call-Lasts s query_id last (now, QueryCall.purge false) h l = l
  call-Lasts s query_id last (now, QueryCall.purge true) h (r, rows, e, late) = (
    r,
    keep (is_current now) rows,
    rw (sqlite.select-delete_before s now (uuid_text query_id), e)
        (keep-Lasts now last r rows h late),
    late,
  )
  call-Lasts s query_id last (now, QueryCall.set runs other value) h l =
      by_content (orjson.dumps value) refl runs
    where
      by_content :
          (c : Result Text)
          → orjson.dumps value ≡ c
          → (b : Bool)
          → Lasts
              (query_step sqlite orjson s (now, QueryCall.set b other value)).0
              (uuid_text query_id)
              last
      by_content (raise x) e b = rw e l
      by_content (ok content) e false = rw e l
      by_content (ok content) e true = rw e (
          inserted-Lasts s
            (record {
              key = uuid_text other;
              content = content;
              expires = now + default_expiration;
            })
            (uuid_text query_id) last l)

  run-Lasts :
      (s : S) (query_id last : ℕ) (calls : List (ℕ × QueryCall V))
      → All (Spares query_id last) calls
      → Lasts s (uuid_text query_id) last
      → Lasts (run (query_step sqlite orjson) s calls).0 (uuid_text query_id) last
  run-Lasts s query_id last [] h l = l
  run-Lasts s query_id last (c ∷ calls) h l =
      run-Lasts (query_step sqlite orjson s c).0 query_id last calls h.1
        (call-Lasts s query_id last c h.0 l)

  insert-Lasts :
      (s : S) (row : Row)
      → (Sqlite.inserted s (sqlite.insert s row)).1 ≡ true
      → Lasts (Sqlite.inserted s (sqlite.insert s row)).0 row.key row.expires
  insert-Lasts s row = by_rows (sqlite.select s row.key) refl
    where
      by_rows :
          (rows : List Row)
          → sqlite.select s row.key ≡ rows
          → (Sqlite.inserted s (sqlite.insert s row)).1 ≡ true
          → Lasts (Sqlite.inserted s (sqlite.insert s row)).0 row.key row.expires
      by_rows (x ∷ xs) k = rw (sqlite.insert-taken s row x xs k) (λ h. absurd (cc))
      by_rows [] k =
          let (next, is_next, wrote) = sqlite.insert-free s row k in
          rw is_next (λ h. (row, [], rw (wrote row.key, text_eq_refl row.key) refl, omega arith))

  done-injective :
      {a b : Bool} → ◌≡◌ {A = Result (Answer V)} (ok (Answer.done a)) (ok (Answer.done b)) → a ≡ b
  done-injective h = cc

  -- Only an insertion gives True.
  set-Lasts :
      (runs : Bool) (now : ℕ) (s : S) (query_id : ℕ) (value : Option V)
      → (query_step sqlite orjson s (now, QueryCall.set runs query_id value)).1
        ≡ ok (Answer.done true)
      → Lasts
          (query_step sqlite orjson s (now, QueryCall.set runs query_id value)).0
          (uuid_text query_id)
          (now + default_expiration)
  unfolding query_step step Sqlite.set
  set-Lasts runs now s query_id value = by_content (orjson.dumps value) refl runs
    where
      by_content :
          (c : Result Text)
          → orjson.dumps value ≡ c
          → (b : Bool)
          → (query_step sqlite orjson s (now, QueryCall.set b query_id value)).1
            ≡ ok (Answer.done true)
          → Lasts
              (query_step sqlite orjson s (now, QueryCall.set b query_id value)).0
              (uuid_text query_id)
              (now + default_expiration)
      by_content (raise x) e b = rw e (λ h. absurd (cc))
      by_content (ok content) e false = rw e (λ h. absurd (cc))
      by_content (ok content) e true = rw e (λ h.
          insert-Lasts s
            (record {
              key = uuid_text query_id;
              content = content;
              expires = now + default_expiration;
            })
            (done-injective h))

  not_again :
      (runs : Bool) (now : ℕ) (s : S) (query_id last : ℕ) (value : Option V)
      → Lasts s (uuid_text query_id) last
      → (query_step sqlite orjson s (now, QueryCall.set runs query_id value)).1
        ≢ ok (Answer.done true)
  unfolding query_step step Sqlite.set
  not_again runs now s query_id last value l = by_content (orjson.dumps value) refl runs
    where
      by_content :
          (c : Result Text)
          → orjson.dumps value ≡ c
          → (b : Bool)
          → (query_step sqlite orjson s (now, QueryCall.set b query_id value)).1
            ≢ ok (Answer.done true)
      by_content (raise x) e b = rw e (λ h. cc)
      by_content (ok content) e false = rw e (λ h. cc)
      by_content (ok content) e true =
          rw
            (
              e,
              sqlite.insert-taken s
                  (record {
                    key = uuid_text query_id;
                    content = content;
                    expires = now + default_expiration;
                  })
                  l.0 l.1 l.2,
            )
            (λ h. cc)

  -- A query id that the cache has taken as new, at a time, is not new again for any later call,
  -- whatever the calls between: unless one of them deletes it, or purges the cache more than three
  -- days after.
  pub query_set-once :
      (s : S) (runs again : Bool) (query_id now later : ℕ) (value other : Option V)
      (calls : List (ℕ × QueryCall V))
      → (query_step sqlite orjson s (now, QueryCall.set runs query_id value)).1
        ≡ ok (Answer.done true)
      → All (Spares query_id (now + default_expiration)) calls
      → let first = (query_step sqlite orjson s (now, QueryCall.set runs query_id value)).0 in
        let between = (run (query_step sqlite orjson) first calls).0 in
        (query_step sqlite orjson between (later, QueryCall.set again query_id other)).1
        ≢ ok (Answer.done true)
  query_set-once s runs again query_id now later value other calls h spared =
      let first = (query_step sqlite orjson s (now, QueryCall.set runs query_id value)).0 in
      not_again again later (run (query_step sqlite orjson) first calls).0 query_id
        (now + default_expiration) other
        (run-Lasts first query_id (now + default_expiration) calls spared
          (set-Lasts runs now s query_id value h))
