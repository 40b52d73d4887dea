-- ===== src/Cache/Counting.antt =====
-- A counter follows the number of rows of its table.
use byoda_python.Base.{
  ℕ, ◌+◌, ◌^◌, ◌<◌, ◌≡◌, ◌⊎◌, refl, inl, inr, true, List, [], ◌∷◌, none, some, Result, ok, ◌>>=◌,
  ltb, Bool-cases,
}
use byoda_python.Text.{Text}
use byoda_python.Text.Laws.{text_eq_refl}
use byoda_python.Text.Number.{ℤ, pos}
use byoda_python.Cache.{Orjson, SqlTable, Row, ◌+ℤ◌}
use byoda_python.Cache.Sqlite
use byoda_python.Cache.Query.{default_expiration}
use byoda_python.Cache.Counter.{update, recount}

-- What happens to a table and to the cache of its counter: the number of rows changes, and the
-- counter is updated by that much; or the cache is purged.
pub data Event : Type 0 where
  change : ℕ → ℕ → ℤ → ℕ → Event
  purge : ℕ → Event

-- Each change is the difference between the counts before and after it, which fit 63 bits.
abbrev pub Consistent : ℕ → List Event → Type 0
Consistent n [] = Unit
Consistent n (change now later delta after ∷ events) =
    (pos n +ℤ delta ≡ pos after) × (after < 2 ^ 63) × Consistent after events
Consistent n (purge now ∷ events) = Consistent n events

-- The counts after the changes, in their order.
abbrev pub counts_after : List Event → List ℕ
counts_after [] = []
counts_after (change now later delta after ∷ events) = after ∷ counts_after events
counts_after (purge now ∷ events) = counts_after events

module _ {S V : Type 0} (sqlite : SqlTable S) (orjson : Orjson V) where
  -- The cache has no value for the counter, or that number.
  abbrev pub Counts : S → Text → ℕ → Type 0
  Counts s key n =
      (sqlite.select s key ≡ [])
      ⊎ ((r : Row) × (sqlite.select s key ≡ r ∷ [])
          × (orjson.dumps (some (orjson.integer (pos n))) ≡ ok r.content))

  -- Every statement runs, and `table.count` finds the rows that are there.
  unfoldable pub follow : S → Text → List Event → Result (S × List ℕ)
  unfolding update Sqlite.purge
  follow s key [] = ok (s, [])
  follow s key (change now later delta after ∷ events) = do
    (next, n) ← update sqlite orjson true true true now later s key delta (λ f. after) []
    (last, counts) ← follow next key events
    ok (last, n ∷ counts)
  follow s key (purge now ∷ events) = follow (Sqlite.purge sqlite true now s).0 key events

  set-Counts :
      (later : ℕ) (s : S) (key : Text) (n : ℕ)
      → n < 2 ^ 63
      → sqlite.select s key ≡ []
      → (next : S) × (recount sqlite orjson true later s key n ≡ ok (next, n)) × Counts next key n
  unfolding recount Sqlite.set
  set-Counts later s key n h free =
      let (content, e) = orjson.dumps-integer n h in
      let row : Row = record {
        key = key;
        content = content;
        expires = later + default_expiration;
      } in
      let (next, is_next, wrote) = sqlite.insert-free s row free in
      (next, rw (e, is_next) refl, inr (row, rw (wrote key, text_eq_refl key) refl, e))

  incr-Counts :
      (now : ℕ) (s : S) (key : Text) (n after : ℕ) (delta : ℤ) (r : Row)
      → pos n +ℤ delta ≡ pos after
      → after < 2 ^ 63
      → sqlite.select s key ≡ r ∷ []
      → orjson.dumps (some (orjson.integer (pos n))) ≡ ok r.content
      → (next : S) × (Sqlite.incr sqlite orjson true true now s key delta default_expiration
          ≡ ok (next, some after))
        × Counts next key after
  unfolding Sqlite.incr Sqlite.get
  incr-Counts now s key n after delta r same h row e =
      let (content, is_content) = orjson.dumps-integer after h in
      let reads = orjson.loads-dumps (some (orjson.integer (pos n))) r.content e in
      let int = orjson.to_int-integer (pos n) in
      (
        sqlite.update s key content (now + default_expiration),
        rw (row, reads, int, same, is_content) refl,
        inr (
          record { key = r.key; content = content; expires = now + default_expiration },
          rw
              (
                sqlite.select-update s key content (now + default_expiration) key,
                text_eq_refl key,
                row,
              )
              refl,
          is_content,
        ),
      )

  incr-absent :
      (now : ℕ) (s : S) (key : Text) (delta : ℤ)
      → sqlite.select s key ≡ []
      → Sqlite.incr sqlite orjson true true now s key delta default_expiration ≡ ok (s, none)
  unfolding Sqlite.incr Sqlite.get
  incr-absent now s key delta free = rw free refl

  update-Counts :
      (now later : ℕ) (s : S) (key : Text) (n after : ℕ) (delta : ℤ)
      → Counts s key n
      → pos n +ℤ delta ≡ pos after
      → after < 2 ^ 63
      → (next : S) × (update sqlite orjson true true true now later s key delta (λ f. after) []
          ≡ ok (next, after))
        × Counts next key after
  unfolding update
  update-Counts now later s key n after delta (inl free) same h =
      rw (incr-absent now s key delta free) (set-Counts later s key after h free)
  update-Counts now later s key n after delta (inr (r, row, e)) same h =
      let (next, is_next, counts) = incr-Counts now s key n after delta r same h row e in
      (next, rw is_next refl, counts)

  purge-Counts :
      (now : ℕ) (s : S) (key : Text) (n : ℕ)
      → Counts s key n
      → Counts (sqlite.delete_before s now).0 key n
  purge-Counts now s key n (inl free) = inl (rw (sqlite.select-delete_before s now key, free) refl)
  purge-Counts now s key n (inr (r, row, e)) = elim (Bool-cases (ltb r.expires now)) [
    | inl late ↦ inl (rw (sqlite.select-delete_before s now key, row, late) refl)
    | inr early ↦ inr (r, rw (sqlite.select-delete_before s now key, row, early) refl, e)
  ]

  -- As long as each update passes the difference between two counts of the table, and the
  -- statements run, every update gives the count of the table after it; purging the cache between
  -- the updates changes nothing of that.
  pub follow_exact :
      (s : S) (key : Text) (n : ℕ) (events : List Event)
      → Counts s key n
      → Consistent n events
      → (last : S) × (follow s key events ≡ ok (last, counts_after events))
  unfolding follow Sqlite.purge
  follow_exact s key n [] c h = (s, refl)
  follow_exact s key n (change now later delta after ∷ events) c (same, fits, h) =
      let (next, is_next, counts) = update-Counts now later s key n after delta c same fits in
      let (last, rest) = follow_exact next key after events counts h in
      (last, rw (is_next, rest) refl)
  follow_exact s key n (purge now ∷ events) c h =
      follow_exact (sqlite.delete_before s now).0 key n events (purge-Counts now s key n c) h
