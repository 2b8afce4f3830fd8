-- ===== src/Backend/Indexer/Poll.antt =====
-- What a poll leaves in the store: for each key the last event, and the cursor.
use line_proof.Base.{
  ℕ, ◌≤◌, ◌≡◌, refl, sym, ap, ◌∙◌, subst, false, Option, none, some, List, [], ◌∷◌, ◌++◌,
  append_assoc, append-nil, arith, ltb, if◌then◌else◌, unwrap_or,
}
use line_proof.Backend.Indexer.{
  Event, RawEvent, Store, deserialize, same_key, persist, Progress, accept, each, cursor, poll,
  get_indexed_events,
}

-- The last of the events that has the key of `k`, or else what was there before.
abbrev pub last_of : Event → List Event → Option Event → Option Event
last_of k [] before = before
last_of k (e ∷ es) before = last_of k es (if same_key e k then some e else before)

-- The event stored under the key of `k`.
abbrev pub find : Event → List Event → Option Event
find k [] = none
find k (e ∷ es) = let rest = find k es in if same_key e k then some e else rest

abbrev kept : Option Event → List Event → List Event
kept none es = es
kept (some e) es = e ∷ es

-- The events that `deserialize` does not skip, in order.
unfoldable pub accepted : List RawEvent → List Event
accepted [] = []
accepted (item ∷ items) = kept (deserialize item) (accepted items)

abbrev pub largest : List Event → ℕ → ℕ
largest [] n = n
largest (e ∷ es) n = largest es (if ltb n e.ledger then e.ledger else n)

find-persist :
    (k e : Event) (es : List Event)
    → find k (persist e es) ≡ (if same_key e k then some e else find k es)
find-persist k e [] = ground arith
find-persist k e (x ∷ xs) = ground (arith, find-persist k e xs)

largest-bound : (es : List Event) (n : ℕ) → n ≤ largest es n
largest-bound [] n = omega arith
largest-bound (e ∷ es) n = ground (arith, largest-bound es (if ltb n e.ledger then e.ledger else n))

-- What `p` becomes when the events `es` are accepted.
record Accepts (p q : Progress) (es : List Event) : Type 0 where
  found : (k : Event) → find k q.stored ≡ last_of k es (find k p.stored)
  returns : q.events ≡ p.events ++ es
  reaches : q.max_ledger ≡ largest es p.max_ledger

Accepts-kept :
    (o : Option Event) (p q : Progress) (es : List Event)
    → Accepts (accept o p) q es
    → Accepts p q (kept o es)
Accepts-kept none p q es a = a
Accepts-kept (some e) p q es a = record {
  found = λ k. a.found k ∙ ap (last_of k es) (find-persist k e p.stored);
  returns = a.returns ∙ append_assoc p.events (e ∷ []) es;
  reaches = a.reaches;
}

each-Accepts : (items : List RawEvent) (p : Progress) → Accepts p (each items p) (accepted items)
unfolding each accepted
each-Accepts [] p = record {
  found = λ k. refl;
  returns = sym (append-nil p.events);
  reaches = refl;
}
each-Accepts (item ∷ items) p =
    Accepts-kept (deserialize item) p _ (accepted items)
      (each-Accepts items (accept (deserialize item) p))

-- The cursor that `poll` stores.
next_cursor :
    (start from n : ℕ) (last : Option ℕ)
    → unwrap_or last start ≡ from
    → from ≤ n
    → unwrap_or (if ltb from n then some n else last) start ≡ n
next_cursor start from n last is_from up = ground arith

-- A poll that is not held up by another one returns the fetched events that are well formed, in
-- order, and keeps of them under each key `ledger:namespace:kind:contractId` the last one alone; what
-- is stored under any other key stays, the cursor becomes the largest ledger seen, and the next poll
-- is free to run.
pub poll-indexes :
    (start_ledger : ℕ) (fetched : ℕ → List RawEvent) (s : Store)
    → s.running ≡ false
    → let r : List Event × Store = poll start_ledger fetched s in
      (r.0 ≡ accepted (fetched (cursor start_ledger s)))
      × ((k : Event) → find k (get_indexed_events r.1) ≡ last_of k r.0 (find k s.events))
      × (cursor start_ledger r.1 ≡ largest r.0 (cursor start_ledger s))
      × (r.1.running ≡ false)
unfolding poll cursor
poll-indexes start_ledger fetched s idle =
    let from : ℕ = unwrap_or s.last_ledger start_ledger in
    let items : List RawEvent = fetched from in
    let p : Progress = record { stored = s.events; events = []; max_ledger = from } in
    let a = each-Accepts items p in
    rw idle (
      a.returns,
      (λ k. a.found k ∙ ap (λ es. last_of k es (find k s.events)) (sym a.returns)),
      next_cursor start_ledger from (each items p).max_ledger s.last_ledger refl
            (subst (λ n. from ≤ n) (sym a.reaches) (largest-bound (accepted items) from))
          ∙ a.reaches
          ∙ ap (λ es. largest es from) (sym a.returns),
      refl,
    )
