-- ===== src/Soroban/Schema.antt =====
-- What a contract declares of its storage and events, and what it observes of them.
use line_proof.Base.{◌≡◌, ◌≢◌, Option, List}

-- A contract's storage keys, the type that it stores at each, and its events. `assign` writes
-- (`some`) or deletes (`none`) one entry of a storage that is given by its contents.
pub record Schema : Type 1 where
  pub Key : Type 0
  pub Value : Key → Type 0
  pub Event : Type 0
  pub dec_key : Discrete Key
  pub assign :
      (k : Key) → Option (Value k) → ((j : Key) → Option (Value j)) → (j : Key) → Option (Value j)
  pub assign_self :
      (k : Key) (o : Option (Value k)) (m : (j : Key) → Option (Value j)) → assign k o m k ≡ o
  pub assign_ne :
      (k j : Key) (o : Option (Value k)) (m : (j : Key) → Option (Value j))
      → k ≢ j
      → assign k o m j ≡ m j

abbrev pub Slots : Schema → Type 0
Slots S = (k : S.Key) → Option (S.Value k)

-- What can be observed of a contract's storage: each entry, and the events published so far.
pub record Observed (S : Schema) : Type 0 where
  pub slots : (k : S.Key) → Option (S.Value k)
  pub log : List S.Event
