-- ===== src/Proxy/Network.antt =====
-- The pods of a service: the queries on their way between them, delivered in any order or lost.
use byoda_python.Base.{
  ℕ, zero, suc, ◌≡◌, true, List, [], ◌∷◌, ◌++◌, Option, none, some, Result, ok, raise, ◌==◌,
  if◌then◌else◌,
}
use byoda_python.DataTypes.{IdType}
use byoda_python.Access.Authorize.{Auth}
use byoda_python.Proxy.{Query}
use byoda_python.Proxy.Get.{Queries, Signatures, Member, get}

-- A query on its way, with the authentication that its target finds.
pub record Message : Type 0 where
  pub target : ℕ
  pub auth : Auth
  pub query : Query

-- The query caches of the pods by member id, and what is on its way.
pub record Net (C : Type 0) : Type 0 where
  pub caches : ℕ → C
  pub messages : List Message

-- A pod calls another with the certificate of its membership.
abbrev pub auth_of : Member → Auth
auth_of member = record {
  is_authenticated = true;
  id_type = IdType.member;
  member_id = some member.member_id;
  service_id = some member.service_id;
}

-- The calls of `_exec_data_query`: a target without a member id has no name to call.
abbrev pub message_to : Auth → Option ℕ × Query → List Message → List Message
message_to auth (none, query) rest = rest
message_to auth (some n, query) rest = (record { target = n; auth = auth; query = query }) ∷ rest

abbrev pub messages_to : Auth → List (Option ℕ × Query) → List Message
messages_to auth [] = []
messages_to auth (call ∷ calls) = message_to auth call (messages_to auth calls)

abbrev pub sent : Auth → Result (List (Option ℕ × Query)) → List Message
sent auth (raise e) = []
sent auth (ok calls) = messages_to auth calls

abbrev pub written : {C : Type 0} → (ℕ → C) → ℕ → C → ℕ → C
written caches n c m = if m == n then c else caches m

-- A query that its target answers, by its id.
abbrev pub entry_of : ℕ → Option ℕ → List (ℕ × ℕ)
entry_of target none = []
entry_of target (some q) = (target, q) ∷ []

abbrev pub answered : Message → Result (List (Option ℕ × Query)) → List (ℕ × ℕ)
answered message (raise e) = []
answered message (ok calls) = entry_of message.target message.query.query_id

module _ {C : Type 0} (queries : Queries C) (signatures : Signatures) (members : ℕ → Member) where
  abbrev pub answer : ℕ → (ℕ → C) → Message → C × Result (List (Option ℕ × Query))
  answer now caches message =
      get signatures queries now (members message.target) message.auth (caches message.target)
        message.query

  -- The steps of the pods, with their number and the queries with an id that are answered, in order.
  pub data Run : Net C → ℕ → List (ℕ × ℕ) → Net C → Type 0 where
    done : {n : Net C} → Run n zero [] n
    deliver :
        {n last : Net C} {k : ℕ} {log : List (ℕ × ℕ)} (now : ℕ) (before after : List Message)
        (message : Message)
        → n.messages ≡ before ++ (message ∷ after)
        → Run
            (record {
              caches = written n.caches message.target (answer now n.caches message).0;
              messages =
                  before
                  ++ (after
                      ++ sent (auth_of (members message.target)) (answer now n.caches message).1);
            })
            k
            log
            last
        → Run n (suc k) (answered message (answer now n.caches message).1 ++ log) last
    lose :
        {n last : Net C} {k : ℕ} {log : List (ℕ × ℕ)} (before after : List Message)
        (message : Message)
        → n.messages ≡ before ++ (message ∷ after)
        → Run (record { caches = n.caches; messages = before ++ after }) k log last
        → Run n (suc k) log last
