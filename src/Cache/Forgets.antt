-- ===== src/Cache/Forgets.antt =====
-- A pod does not keep query ids for ever.
use byoda_python.Base.{
  ℕ, ◌+◌, ◌≤◌, ◌<◌, ◌≡◌, refl, inl, inr, Bool, true, false, List, [], ◌∷◌, Option, Result, ok,
  raise, Bool-cases, arith, All,
}
use byoda_python.Text.{Text, text_eq}
use byoda_python.Text.Uuid.{uuid_text}
use byoda_python.Cache.{Orjson, SqlTable, Row, keep, is_current}
use byoda_python.Cache.Sqlite
use byoda_python.Cache.Spec.{Answer, step, run}
use byoda_python.Cache.Query.{QueryCall, query_step, default_expiration}

-- The call is made at a time up to `last`.
abbrev pub By : {V : Type 0} → ℕ → ℕ × QueryCall V → Type 0
By last (now, call) = now ≤ last

abbrev Expires : ℕ → Row → Type 0
Expires last r = r.expires ≤ last

keep-All :
    (now last : ℕ) (rows : List Row)
    → All (Expires last) rows
    → All (Expires last) (keep (is_current now) rows)
keep-All now last [] h = tt
keep-All now last (r ∷ rows) h = elim (Bool-cases (is_current now r)) [
  | inl e ↦ rw e (h.0, keep-All now last rows h.1)
  | inr e ↦ rw e (keep-All now last rows h.1)
]

keep_none :
    (now last : ℕ) (rows : List Row)
    → last < now
    → All (Expires last) rows
    → keep (is_current now) rows ≡ []
keep_none now last [] h k = refl
keep_none now last (r ∷ rows) h k =
    let late : is_current now r ≡ false = ground (arith, k.0) in
    rw late (keep_none now last rows h k.1)

module _ {S V : Type 0} (sqlite : SqlTable S) (orjson : Orjson V) where
  -- Every row expires by `last`.
  abbrev pub Expiring : S → ℕ → Type 0
  Expiring s last = (k : Text) → All (Expires last) (sqlite.select s k)

  inserted-Expiring :
      (s : S) (row : Row) (last : ℕ)
      → row.expires ≤ last
      → Expiring s last
      → Expiring (Sqlite.inserted s (sqlite.insert s row)).0 last
  inserted-Expiring s row last fits h = by_rows (sqlite.select s row.key) refl
    where
      by_rows :
          (rows : List Row)
          → sqlite.select s row.key ≡ rows
          → Expiring (Sqlite.inserted s (sqlite.insert s row)).0 last
      by_rows (x ∷ xs) k key = rw (sqlite.insert-taken s row x xs k) (h key)
      by_rows [] k key =
          let (next, is_next, wrote) = sqlite.insert-free s row k in
          rw is_next (elim (Bool-cases (text_eq key row.key)) [
            | inl same ↦ rw (wrote key, same) (fits, tt)
            | inr other ↦ rw (wrote key, other) (h key)
          ])

  call-Expiring :
      (s : S) (last : ℕ) (call : ℕ × QueryCall V)
      → By last call
      → Expiring s (last + default_expiration)
      → Expiring (query_step sqlite orjson s call).0 (last + default_expiration)
  unfolding query_step step Sqlite.delete Sqlite.set Sqlite.purge
  call-Expiring s last (now, QueryCall.exists runs other) b h key = h key
  call-Expiring s last (now, QueryCall.delete false other) b h key = h key
  call-Expiring s last (now, QueryCall.delete true other) b h key =
      elim (Bool-cases (text_eq key (uuid_text other))) [
        | inl same ↦ rw (sqlite.select-delete s (uuid_text other) key, same) tt
        | inr differs ↦ rw (sqlite.select-delete s (uuid_text other) key, differs) (h key)
      ]
  call-Expiring s last (now, QueryCall.purge false) b h key = h key
  call-Expiring s last (now, QueryCall.purge true) b h key =
      rw (sqlite.select-delete_before s now key)
        (keep-All now (last + default_expiration) (sqlite.select s key) (h key))
  call-Expiring s last (now, QueryCall.set runs other value) b h key =
      by_content (orjson.dumps value) refl runs key
    where
      by_content :
          (c : Result Text)
          → orjson.dumps value ≡ c
          → (does : Bool)
          → Expiring
              (query_step sqlite orjson s (now, QueryCall.set does other value)).0
              (last + default_expiration)
      by_content (raise x) e does = rw e h
      by_content (ok content) e false = rw e h
      by_content (ok content) e true = rw e (
          inserted-Expiring s
            (record {
              key = uuid_text other;
              content = content;
              expires = now + default_expiration;
            })
            (last + default_expiration) (omega arith) h)

  run-Expiring :
      (s : S) (last : ℕ) (calls : List (ℕ × QueryCall V))
      → All (By last) calls
      → Expiring s (last + default_expiration)
      → Expiring (run (query_step sqlite orjson) s calls).0 (last + default_expiration)
  run-Expiring s last [] b h = h
  run-Expiring s last (c ∷ calls) b h =
      run-Expiring (query_step sqlite orjson s c).0 last calls b.1 (call-Expiring s last c b.0 h)

  -- A set on a table that has no row for the id.
  set-new :
      (s : S) (now query_id : ℕ) (value : Option V) (content : Text)
      → orjson.dumps value ≡ ok content
      → sqlite.select s (uuid_text query_id) ≡ []
      → (query_step sqlite orjson s (now, QueryCall.set true query_id value)).1
        ≡ ok (Answer.done true)
  unfolding query_step step Sqlite.set
  set-new s now query_id value content e free =
      let (next, is_next, wrote) =
        sqlite.insert-free s
          (record {
            key = uuid_text query_id;
            content = content;
            expires = now + default_expiration;
          })
          free in
      rw (e, is_next) refl

  -- Whatever the calls on an empty cache up to a time: once a purge has run more than three days
  -- after it, every query id is new again, for a value that can be written.
  pub purge-forgets :
      (s : S) (calls : List (ℕ × QueryCall V)) (last now later query_id : ℕ) (value : Option V)
      (content : Text)
      → ((k : Text) → sqlite.select s k ≡ [])
      → All (By last) calls
      → last + default_expiration < now
      → orjson.dumps value ≡ ok content
      → let before = (run (query_step sqlite orjson) s calls).0 in
        let purged = (query_step sqlite orjson before (now, QueryCall.purge true)).0 in
        (query_step sqlite orjson purged (later, QueryCall.set true query_id value)).1
        ≡ ok (Answer.done true)
  unfolding query_step step Sqlite.purge
  purge-forgets s calls last now later query_id value content empty b late e =
      let before = (run (query_step sqlite orjson) s calls).0 in
      let all_expire : Expiring before (last + default_expiration) =
        run-Expiring s last calls b (λ k. rw (empty k) tt) in
      set-new (sqlite.delete_before before now).0 later query_id value content e (
        rw (sqlite.select-delete_before before now (uuid_text query_id)) (
          keep_none now (last + default_expiration) (sqlite.select before (uuid_text query_id)) late
            (all_expire (uuid_text query_id))))
