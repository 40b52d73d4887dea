-- ===== src/Tests/Caches.antt =====
-- The caches, on a table of numbers.
use byoda_python.Base.{
  ℕ, ◌≡◌, ◌≢◌, refl, ap, ◌∙◌, if◌then◌else◌, inl, true, false, List, [], ◌∷◌, Option, none, some,
  ok, Any, arith, length,
}
use byoda_python.Text.{Text, text_eq, codes, rstrip}
use byoda_python.Text.Number.{ℤ, pos, negsuc}
use byoda_python.Cache.{◌+ℤ◌}
use byoda_python.Cache.Spec.{Command, Answer, step, spec_step, run}
use byoda_python.Cache.Refines.{run-Agrees}
use byoda_python.Cache.Refines.Rows.{Stores}
use byoda_python.Cache.Query.{QueryCall, query_step}
use byoda_python.Cache.Once.{query_set-once}
use byoda_python.Cache.Forgets.{purge-forgets}
use byoda_python.Cache.Counting.{Event, change, purge, follow, follow_exact}
use byoda_python.Cache.Sqlite
use byoda_python.Cache.Redis.{RedisDriver}
use byoda_python.Cache.Persist.{Count, incr, decr}
use byoda_python.Cache.Counter.{get_key_name, sorted_texts, insert_text, add_specifiers}
use byoda_python.Cache.Names.{IsSorted}
use byoda_python.Cache.Fields.{
  Field, Data, lookup, counter_fields, combinations, combinations_to, specifiers,
  get_counter_key_permutations,
}
use byoda_python.Cache.Updated.{filter_of, append-updates}
use byoda_python.Text.Laws.{text_eq_refl}
use byoda_python.Tests.Tables.{rows, numbers, no_rows, Rows}

-- A value is set, incremented, decremented, set again and purged after it has expired.
abbrev commands : List (ℕ × Command ℤ)
commands =
    (10, Command.set true (codes "a") (some (pos 5)) 100)
    ∷ (20, Command.incr true true (codes "a") (negsuc 7) 100)
    ∷ (25, Command.decr true (codes "a") (pos 1) 100)
    ∷ (30, Command.set true (codes "a") none 100)
    ∷ (40, Command.get false (codes "a"))
    ∷ (200, Command.purge true)
    ∷ (210, Command.exists true (codes "a"))
    ∷ []

run-Agrees_example :
    let concrete = run (step numbers rows) no_rows commands in
    let promised = run (spec_step numbers) (λ k. none) commands in
    (concrete.1 ≡ promised.1) × Stores numbers rows concrete.0 promised.0
run-Agrees_example = run-Agrees numbers rows no_rows (λ k. none) commands (λ k. tt)

-- Another id is set, and the cache purged in time.
abbrev between : List (ℕ × QueryCall ℤ)
between =
    (20, QueryCall.set true 8 none)
    ∷ (30, QueryCall.exists true 7)
    ∷ (259210, QueryCall.purge true)
    ∷ []

first_is_new :
    (query_step rows numbers no_rows (10, QueryCall.set true 7 none)).1 ≡ ok (Answer.done true)
unfolding query_step step Sqlite.set
first_is_new = refl

query_set-once_example :
    let first = (query_step rows numbers no_rows (10, QueryCall.set true 7 none)).0 in
    let last = (run (query_step rows numbers) first between).0 in
    (query_step rows numbers last (259220, QueryCall.set true 7 (some (pos 1)))).1
    ≢ ok (Answer.done true)
query_set-once_example =
    query_set-once rows numbers no_rows true true 7 10 259220 none (some (pos 1)) between
      first_is_new (tt, (tt, (omega arith, tt)))

purge-forgets_example :
    let before = (run (query_step rows numbers) no_rows between).0 in
    let purged = (query_step rows numbers before (600000, QueryCall.purge true)).0 in
    (query_step rows numbers purged (600001, QueryCall.set true 8 none)).1 ≡ ok (Answer.done true)
purge-forgets_example =
    purge-forgets rows numbers no_rows between 259210 600000 600001 8 none [] (λ k. refl)
      (omega arith, (omega arith, (omega arith, tt))) (omega arith) refl

-- Three rows are added, the cache is purged, and one of them is deleted.
abbrev events : List Event
events = change 10 11 (pos 3) 3 ∷ purge 500000 ∷ change 500001 500002 (negsuc 0) 2 ∷ []

follow_exact_example :
    (last : Rows) × (follow rows numbers no_rows (codes "posts") events ≡ ok (last, 3 ∷ 2 ∷ []))
follow_exact_example =
    follow_exact rows numbers no_rows (codes "posts") 0 events (inl refl)
      (refl, omega arith, (refl, omega arith, tt))

-- A Redis server as a function from keys.
abbrev Counters : Type 0
Counters = Text → Option (ℤ × Option ℕ)

abbrev raised : ℤ → Option (ℤ × Option ℕ) → Option (ℤ × Option ℕ)
raised amount none = some (amount, none)
raised amount (some (n, ex)) = some (n +ℤ amount, ex)

set_key : Counters → Text → Option (ℤ × Option ℕ) → Counters
set_key s key entry k = if text_eq k key then entry else s k

set_key_same :
    (s : Counters) (key : Text) (entry : Option (ℤ × Option ℕ)) → set_key s key entry key ≡ entry
unfolding set_key
set_key_same s key entry = rw (text_eq_refl key) refl

abbrev counters : RedisDriver Counters
counters = record {
  lookup = λ s k. s k;
  set = λ s key n ex. set_key s key (some (n, ex));
  incr = λ s key amount. set_key s key (raised amount (s key));
  lookup-set = λ s key n ex k. unfold set_key in refl;
  lookup-incr_some = λ s key n amount ex h is_amount is_sum.
      set_key_same s key (raised amount (s key)) ∙ ap (raised amount) h;
  lookup-incr_none =
      λ s key amount h is_amount. set_key_same s key (raised amount (s key)) ∙ ap (raised amount) h;
}

abbrev counting : List Count
counting = incr (pos 2) 60 ∷ decr 5 60 ∷ incr (pos 4) 60 ∷ []

-- A class of links with one counter.
abbrev fields : List Field
fields =
    (record { name = codes "relation"; is_counter = true })
    ∷ (record { name = codes "member_id"; is_counter = false })
    ∷ []

abbrev values : Data
values = (codes "relation", record { text = codes "friend"; is_true = true }) ∷ []

abbrev combo : List Text
combo = codes "relation" ∷ []

combo_is_there :
    let names = counter_fields values fields in
    Any (λ c. c ≡ combo) (combinations_to (length names) names)
unfolding counter_fields combinations_to combinations lookup text_eq
combo_is_there = inl refl

in_order : IsSorted (specifiers values combo)
unfolding specifiers lookup text_eq
in_order = tt

no_dash :
    rstrip b'-' (get_key_name (codes "links") (filter_of values combo))
    ≡ get_key_name (codes "links") (filter_of values combo)
unfolding get_key_name filter_of rstrip lookup sorted_texts insert_text add_specifiers text_eq
no_dash = refl

append-updates_example :
    Any
      (λ key. key ≡ get_key_name (codes "links") (filter_of values combo))
      (get_counter_key_permutations (codes "links") fields values)
append-updates_example =
    append-updates (codes "links") fields values combo combo_is_there in_order no_dash
