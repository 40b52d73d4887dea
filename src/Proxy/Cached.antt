-- ===== src/Proxy/Cached.antt =====
-- The query cache of byoda/datacache/querycache.py as the set of ids that a pod has seen.
use byoda_python.Base.{
  ℕ, ◌+◌, ◌≡◌, refl, inl, inr, Bool, true, false, not, List, [], ◌∷◌, Option, Result, ok, raise,
  Bool-cases,
}
use byoda_python.Text.{Text, text_eq}
use byoda_python.Text.Laws.{text_eq_refl}
use byoda_python.Text.Uuid.{uuid_text}
use byoda_python.Cache.{Orjson, SqlTable, Row}
use byoda_python.Cache.Sqlite
use byoda_python.Cache.Query.{default_expiration}
use byoda_python.Proxy.Get.{Queries}

abbrev pub set_or_same : {S : Type 0} → S → Result (S × Bool) → S × Bool
set_or_same s (raise e) = (s, false)
set_or_same s (ok r) = r

module _ {S V : Type 0} (sqlite : SqlTable S) (orjson : Orjson V) (value : Option V)
    (content : Text) (written : orjson.dumps value ≡ ok content) (now : ℕ) where
  abbrev pub row_of : ℕ → Row
  row_of q = record { key = uuid_text q; content = content; expires = now + default_expiration }

  abbrev pub has : S → ℕ → Bool
  has s q = Sqlite.some_row (sqlite.select s (uuid_text q))

  abbrev pub set : S → ℕ → S × Bool
  set s q =
      set_or_same s (Sqlite.set sqlite orjson true now s (uuid_text q) value default_expiration)

  set_lem : (s : S) (q : ℕ) → set s q ≡ Sqlite.inserted s (sqlite.insert s (row_of q))
  unfolding Sqlite.set
  set_lem s q = rw written refl

  -- The row of an id is there already, or is added.
  pub by_rows :
      (s : S) (q : ℕ) (rows : List Row)
      → sqlite.select s (uuid_text q) ≡ rows
      → ((set s q).1 ≡ not (has s q))
        × (has (set s q).0 q ≡ true)
        × ((p : ℕ) → has s p ≡ true → has (set s q).0 p ≡ true)
  by_rows s q (x ∷ rows) e =
      let taken = sqlite.insert-taken s (row_of q) x rows e in
      rw (set_lem s q, taken) (rw e refl, rw e refl, λ p h. h)
  by_rows s q [] e =
      let (next, is_next, wrote) = sqlite.insert-free s (row_of q) e in
      rw (set_lem s q, is_next)
        (
          rw e refl,
          rw (wrote (uuid_text q), text_eq_refl (uuid_text q)) refl,
          λ p h. elim (Bool-cases (text_eq (uuid_text p) (uuid_text q))) [
            | inl same ↦ rw (wrote (uuid_text p), same) refl
            | inr other ↦ rw (wrote (uuid_text p), other) h
          ],
        )

  abbrev pub cached_queries : Queries S
  cached_queries = record {
    has = has;
    set = set;
    set-new = λ s q. (by_rows s q (sqlite.select s (uuid_text q)) refl).0;
    has-set = λ s q. (by_rows s q (sqlite.select s (uuid_text q)) refl).1;
    set-keeps = λ s q p h. (by_rows s q (sqlite.select s (uuid_text q)) refl).2 p h;
  }
