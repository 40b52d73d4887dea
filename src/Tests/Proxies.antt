-- ===== src/Tests/Proxies.antt =====
-- Three pods that are linked in a ring.
use byoda_python.Base.{
  ℕ, ◌+◌, ◌≤◌, ◌≡◌, refl, inl, false, List, [], ◌∷◌, ◌++◌, Option, none, some, Result, ok, raise,
  All, arith, require, invalid_signature, value_error, type_error, if◌then◌else◌, Returns,
}
use byoda_python.Text.{Text, text_eq, codes}
use byoda_python.Text.Laws.{text_eq_refl}
use byoda_python.Text.Number.{decimal, digit_code}
use byoda_python.Text.Uuid.{uuid_text}
use byoda_python.Cache.Sqlite
use byoda_python.DataTypes.{IdType}
use byoda_python.Proxy.{Query, get_proxy_targets}
use byoda_python.Proxy.Get.{Queries, Signatures, Member, get, depth_of, forward, verify_signature}
use byoda_python.Proxy.Network.{Message, Net, Run, auth_of, sent, answer, answered, written}
use byoda_python.Proxy.Ends.{Run-bounded, all_steps}
use byoda_python.Proxy.Answers.{Run-Distinct, Distinct}
use byoda_python.Proxy.Signed.{Forwards, get-Forwards}
use byoda_python.Proxy.Targets.{Linked, IsOther, targets-Linked}
use byoda_python.Proxy.Append.{append, append-Settles, Explained, Arrives}
use byoda_python.Proxy.Cached.{cached_queries}
use byoda_python.Tests.Tables.{rows, numbers, no_rows, Rows}

-- A signature is the text with the signer before it.
abbrev checked : Option ℕ → Text → Option Text → Result (Unit {0})
checked none t s = raise value_error
checked (some m) t none = raise type_error
checked (some m) t (some s) = require (text_eq s (m ∷ t)) invalid_signature

checked_lem : (m : ℕ) (t : Text) → checked (some m) t (some (m ∷ t)) ≡ ok tt
checked_lem m t = rw (text_eq_refl (m ∷ t)) refl

abbrev plain : Signatures
plain = record {
  isoformat = λ n. decimal n;
  sign = λ m t. m ∷ t;
  verify = checked;
  verify-sign = checked_lem;
}

abbrev seen : Queries Rows
seen = cached_queries rows numbers none [] refl 100

abbrev next_to : ℕ → ℕ
next_to n = if text_eq (n ∷ []) (3 ∷ []) then 1 else n + 1

abbrev ring : ℕ → Member
ring n = record {
  member_id = n;
  service_id = 16;
  links = (record { member_id = some (next_to n); relation = codes "friend" }) ∷ [];
}

-- A member asks its own pod.
abbrev asked : Query
asked = record {
  query_id = some 77;
  filter = [];
  depth = 2;
  relations = codes "friend" ∷ [];
  remote_member_id = none;
  timestamp = 90;
  origin_member_id = none;
  origin_signature = none;
  signature_format_version = 1;
}

abbrev first_message : Message
first_message = record { target = 1; auth = auth_of (ring 1); query = asked }

-- The same message is on its way twice.
abbrev start : Net Rows
start = record { caches = λ n. no_rows; messages = first_message ∷ first_message ∷ [] }

abbrev after : Net Rows → List Message → Net Rows
after n others = record {
  caches = written n.caches 1 (answer seen plain ring 100 n.caches first_message).0;
  messages =
      others ++ sent (auth_of (ring 1)) (answer seen plain ring 100 n.caches first_message).1;
}

-- The first of the two is delivered, and then the other.
abbrev second : Net Rows
second = after start (first_message ∷ [])

abbrev forwarded : List Message
forwarded = sent (auth_of (ring 1)) (answer seen plain ring 100 start.caches first_message).1

abbrev last : Net Rows
last = after second forwarded

abbrev log : List (ℕ × ℕ)
log =
    answered first_message (answer seen plain ring 100 start.caches first_message).1
    ++ (answered first_message (answer seen plain ring 100 second.caches first_message).1 ++ [])

both_delivered : Run seen plain ring start 2 log last
both_delivered =
    Run.deliver 100 [] (first_message ∷ []) first_message refl
      (Run.deliver 100 [] forwarded first_message refl Run.done)

is_answered : log ≡ (1, 77) ∷ []
unfolding get depth_of forward verify_signature Sqlite.set text_eq uuid_text digit_code
is_answered = refl

Run-Distinct_example : Distinct log
Run-Distinct_example = Run-Distinct seen plain ring both_delivered

Run-bounded_example : 2 + all_steps 2 last.messages ≤ all_steps 2 start.messages
Run-bounded_example = Run-bounded seen plain ring 2 (λ m. omega arith) both_delivered

get-Forwards_example :
    Returns
      (All (Forwards plain 16 asked))
      (get plain seen 100 (ring 1) (auth_of (ring 1)) no_rows asked).1
get-Forwards_example =
    get-Forwards plain seen 100 (ring 1) (auth_of (ring 1)) no_rows asked (inl refl)

targets-Linked_example :
    All
      (λ t. Linked (codes "friend" ∷ []) (ring 1).links t × IsOther (some 1) t)
      (get_proxy_targets asked (ring 1).links (some 1))
targets-Linked_example = targets-Linked asked (codes "friend") [] (ring 1).links (some 1) refl refl

append-Settles_example :
    Returns
      (λ outcome.
        Explained 1 false
          (record { id = 5; id_type = IdType.member })
          (record {
            depth = 1;
            remote_member_id = some 2;
            origin_id = none;
            origin_id_type = none;
            origin_class_name = none;
          })
          outcome
        × Arrives 1 outcome)
      (append 1 false
        (record { id = 5; id_type = IdType.member })
        (record {
          depth = 1;
          remote_member_id = some 2;
          origin_id = none;
          origin_id_type = none;
          origin_class_name = none;
        }))
append-Settles_example =
    append-Settles 1 false (record { id = 5; id_type = IdType.member })
      (record {
        depth = 1;
        remote_member_id = some 2;
        origin_id = none;
        origin_id_type = none;
        origin_class_name = none;
      })
