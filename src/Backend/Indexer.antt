-- ===== src/Backend/Indexer.antt =====
-- The event indexer, backend/src/services/eventIndexer.ts, over the in-memory store of
-- backend/src/storage/memoryAdapter.ts. A namespace, a kind, a contract and the contents of an event
-- are only compared, so they are numbers; what `fetchRawEvents` returns is an argument.
pub mod Poll
use line_proof.Base.{
  ℕ, not, ◌&&◌, Bool, true, false, Option, none, some, List, [], ◌∷◌, ◌++◌, ◌==◌, ltb,
  if◌then◌else◌, unwrap_or, contains,
}

-- `lineproof.queue`, `lineproof.enrollment`, `lineproof.escrow`, `lineproof.identity` and
-- `lineproof.factory`.
abbrev pub contract_topics : List ℕ
contract_topics = 0 ∷ 1 ∷ 2 ∷ 3 ∷ 4 ∷ []

pub record Event : Type 0 where
  pub namespace : ℕ
  pub kind : ℕ
  pub ledger : ℕ
  pub contract_id : ℕ
  pub contents : ℕ

-- A raw event: a field that is missing or of another type is `none`. The contract is not checked.
pub record RawEvent : Type 0 where
  pub namespace : Option ℕ
  pub kind : Option ℕ
  pub ledger : Option ℕ
  pub contract_id : ℕ
  pub contents : ℕ

-- The namespace `events`, with its values in the order of their insertion, the cursor under
-- `events:cursor`, and the guard against overlapping ticks.
pub record Store : Type 0 where
  pub events : List Event
  pub last_ledger : Option ℕ
  pub running : Bool

abbrev checked : Option ℕ → Option ℕ → Option ℕ → RawEvent → Option Event
checked (some namespace) (some kind) (some ledger) raw =
    if contains namespace contract_topics
    then some (record {
      namespace = namespace;
      kind = kind;
      ledger = ledger;
      contract_id = raw.contract_id;
      contents = raw.contents;
    })
    else none
checked _ _ _ raw = none

unfoldable pub deserialize : RawEvent → Option Event
deserialize raw = checked raw.namespace raw.kind raw.ledger raw

-- The two events are stored under the same key `ledger:namespace:kind:contractId`; no part of it
-- contains a colon.
abbrev pub same_key : Event → Event → Bool
same_key a b =
    a.ledger == b.ledger
    && (a.namespace == b.namespace && (a.kind == b.kind && a.contract_id == b.contract_id))

-- `persist`
abbrev pub persist : Event → List Event → List Event
persist event [] = event ∷ []
persist event (e ∷ es) =
    let rest = persist event es in if same_key e event then event ∷ es else e ∷ rest

-- What the loop of `poll` keeps: the events stored, those returned, and the largest ledger.
pub record Progress : Type 0 where
  pub stored : List Event
  pub events : List Event
  pub max_ledger : ℕ

abbrev pub accept : Option Event → Progress → Progress
accept none p = p
accept (some event) p = record {
  stored = persist event p.stored;
  events = p.events ++ event ∷ [];
  max_ledger = if ltb p.max_ledger event.ledger then event.ledger else p.max_ledger;
}

unfoldable pub each : List RawEvent → Progress → Progress
each [] p = p
each (item ∷ items) p = each items (accept (deserialize item) p)

unfoldable pub cursor : ℕ → Store → ℕ
cursor start_ledger s = unwrap_or s.last_ledger start_ledger

-- `fetched` are the events from the cursor on.
unfoldable pub poll : ℕ → (ℕ → List RawEvent) → Store → List Event × Store
poll start_ledger fetched s =
    if s.running
    then ([], s)
    else let from = cursor start_ledger s in
      let last =
        each (fetched from) (record { stored = s.events; events = []; max_ledger = from }) in
      (
        last.events,
        record {
          events = last.stored;
          last_ledger = if ltb from last.max_ledger then some last.max_ledger else s.last_ledger;
          running = false;
        },
      )

-- `getIndexedEvents`
abbrev pub get_indexed_events : Store → List Event
get_indexed_events s = s.events
