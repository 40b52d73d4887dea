-- ===== src/Proxy/Answers.antt =====
-- No pod answers a query twice.
use byoda_python.Base.{
  ℕ, ◌≡◌, ◌≢◌, refl, subst, ◌∙◌, sym, inl, inr, Bool, true, false, not, List, [], ◌∷◌, ◌++◌, Option,
  none, some, Result, ok, raise, ◌==◌, Bool-cases, arith, All, All-append, All-imp, ◌>>=◌,
  value_error, >>=-eq-ok, require-eq-ok,
}
use byoda_python.Access.Authorize.{Auth}
use byoda_python.Proxy.{Query}
use byoda_python.Proxy.Get.{Queries, Signatures, Member, get, depth_of, forward, note_query}
use byoda_python.Proxy.Network.{Message, Net, Run, answer, answered, entry_of, written}

abbrev pub Distinct : List (ℕ × ℕ) → Type 0
Distinct [] = Unit
Distinct (x ∷ xs) = All (λ y. x ≢ y) xs × Distinct xs

entry_of-All :
    (P : ℕ × ℕ → Type 0) (target : ℕ) (o : Option ℕ)
    → ((q : ℕ) → o ≡ some q → P (target, q))
    → All P (entry_of target o)
entry_of-All P target none h = tt
entry_of-All P target (some q) h = (h q refl, tt)

module _ {C : Type 0} (queries : Queries C) (signatures : Signatures) where
  note_query-keeps :
      (c : C) (o : Option ℕ) (p : ℕ)
      → queries.has c p ≡ true
      → queries.has (note_query signatures queries c o).0 p ≡ true
  note_query-keeps c none p h = h
  note_query-keeps c (some q) p h = queries.set-keeps c q p h

  -- Only a query id that is new is answered.
  get-new :
      (now : ℕ) (member : Member) (auth : Auth) (c : C) (query : Query)
      (calls : List (Option ℕ × Query)) (q : ℕ)
      → query.query_id ≡ some q
      → (get signatures queries now member auth c query).1 ≡ ok calls
      → queries.has c q ≡ false
  unfolding get
  get-new now member auth c query calls q e h =
      let (u, noted, rest) =
        >>=-eq-ok (note_query signatures queries c query.query_id).1
          (λ done.
            depth_of signatures now member auth query >>= forward signatures member auth query)
          h in
      let is_new : (queries.set c q).1 ≡ true =
        require-eq-ok (queries.set c q).1 value_error
          (subst (λ o. (note_query signatures queries c o).1 ≡ ok tt) e noted) in
      by_flag (queries.has c q) (sym (queries.set-new c q) ∙ is_new)
    where
      by_flag : (b : Bool) → not b ≡ true → b ≡ false
      by_flag true k = absurd (cc)
      by_flag false k = refl

  get-has :
      (now : ℕ) (member : Member) (auth : Auth) (c : C) (query : Query) (q : ℕ)
      → query.query_id ≡ some q
      → queries.has (get signatures queries now member auth c query).0 q ≡ true
  unfolding get
  get-has now member auth c query q e = rw e (queries.has-set c q)

  module _ (members : ℕ → Member) where
    abbrev New : (ℕ → C) → ℕ × ℕ → Type 0
    New caches (m, q) = queries.has (caches m) q ≡ false

    -- The caches after a message.
    abbrev after_message : ℕ → (ℕ → C) → Message → ℕ → C
    after_message now caches message =
        written caches message.target (answer queries signatures members now caches message).0

    after_message-keeps :
        (now : ℕ) (caches : ℕ → C) (message : Message) (m q : ℕ)
        → queries.has (caches m) q ≡ true
        → queries.has (after_message now caches message m) q ≡ true
    unfolding get
    after_message-keeps now caches message m q h = elim (Bool-cases (m == message.target)) [
      | inl e ↦
          let same : m ≡ message.target = ground arith in
          rw e (
            note_query-keeps (caches message.target) message.query.query_id q
              (subst (λ n. queries.has (caches n) q ≡ true) same h))
      | inr e ↦ rw e h
    ]

    after_message-New :
        (now : ℕ) (caches : ℕ → C) (message : Message) (entry : ℕ × ℕ)
        → New (after_message now caches message) entry
        → New caches entry
    after_message-New now caches message (m, q) h = elim (Bool-cases (queries.has (caches m) q)) [
      | inr new ↦ new
      | inl old ↦ absurd (cc (h, after_message-keeps now caches message m q old))
    ]

    -- What is answered is new before, and not after.
    answered-New :
        (now : ℕ) (caches : ℕ → C) (message : Message)
        → All
            (λ entry.
              New caches entry
              × (queries.has (after_message now caches message entry.0) entry.1 ≡ true))
            (answered message (answer queries signatures members now caches message).1)
    answered-New now caches message =
        by_answer (answer queries signatures members now caches message).1 refl
      where
        by_answer :
            (r : Result (List (Option ℕ × Query)))
            → (answer queries signatures members now caches message).1 ≡ r
            → All
                (λ entry.
                  New caches entry
                  × (queries.has (after_message now caches message entry.0) entry.1 ≡ true))
                (answered message r)
        by_answer (raise x) e = tt
        by_answer (ok calls) e =
            entry_of-All
              (λ entry.
                New caches entry
                × (queries.has (after_message now caches message entry.0) entry.1 ≡ true))
              message.target message.query.query_id
              (λ q i.
                let has_now : queries.has (answer queries signatures members now caches message).0 q
                    ≡ true =
                  get-has now (members message.target) message.auth (caches message.target)
                    message.query q i in
                let itself : (message.target == message.target) ≡ true = ground arith in
                (
                  get-new now (members message.target) message.auth (caches message.target)
                      message.query calls q i e,
                  rw itself has_now,
                ))

    Run-New :
        {n last : Net C} {k : ℕ} {log : List (ℕ × ℕ)}
        → Run queries signatures members n k log last
        → All (New n.caches) log
    Run-New Run.done = tt
    Run-New {n} (Run.lose before after m e run) = Run-New run
    Run-New {n} (Run.deliver {log = log} now before after m e run) =
        All-append (New n.caches) (answered m (answer queries signatures members now n.caches m).1)
          log
          (All-imp (λ entry h. h.0)
            (answered m (answer queries signatures members now n.caches m).1)
            (answered-New now n.caches m))
          (All-imp (after_message-New now n.caches m) log (Run-New run))

    Distinct-append :
        (caches : ℕ → C) (message : Message) (r : Result (List (Option ℕ × Query)))
        (log : List (ℕ × ℕ))
        → All (λ entry. queries.has (caches entry.0) entry.1 ≡ true) (answered message r)
        → All (New caches) log
        → Distinct log
        → Distinct (answered message r ++ log)
    Distinct-append caches message (raise x) log h new d = d
    Distinct-append caches message (ok calls) log h new d = by_id message.query.query_id h
      where
        by_id :
            (o : Option ℕ)
            → All (λ entry. queries.has (caches entry.0) entry.1 ≡ true) (entry_of message.target o)
            → Distinct (entry_of message.target o ++ log)
        by_id none h = d
        by_id (some q) h = (
          All-imp
              (λ entry fresh same.
                absurd (cc (fresh, subst (λ e. queries.has (caches e.0) e.1 ≡ true) same h.0)))
              log new,
          d,
        )

    -- However the queries are delivered or lost, and at whatever times: the pairs of a pod and a query
    -- id that is answered are different, so that no pod answers a query twice.
    pub Run-Distinct :
        {n last : Net C} {k : ℕ} {log : List (ℕ × ℕ)}
        → Run queries signatures members n k log last
        → Distinct log
    Run-Distinct Run.done = tt
    Run-Distinct (Run.lose before after m e run) = Run-Distinct run
    Run-Distinct {n} (Run.deliver {log = log} now before after m e run) =
        Distinct-append (after_message now n.caches m) m
          (answer queries signatures members now n.caches m).1 log
          (All-imp (λ entry h. h.1)
            (answered m (answer queries signatures members now n.caches m).1)
            (answered-New now n.caches m))
          (Run-New run) (Run-Distinct run)
