-- ===== src/Backend/Escrows.antt =====
-- The escrow service, backend/src/services/escrowService.ts, over the in-memory store of
-- backend/src/storage/memoryAdapter.ts. A string is the list of its code units, since an id is put
-- together from two of them; a time is the number of milliseconds that `new Date()` reads. Of a
-- refusal the status stands here, the message is left out.
pub mod Trail
use Prim.Native.Nat.{◌*◌}
use line_proof.Base.{
  ℕ, ◌+◌, ◌≡◌, Bool, true, false, Option, none, some, List, [], ◌∷◌, ◌++◌, ◌==◌, ◌&&◌, ltb,
  if◌then◌else◌, unwrap_or, is_some,
}

pub data EscrowStatus : Type 0 where
  active released refunded expired : EscrowStatus

pub record EscrowRecord : Type 0 where
  pub id : List ℕ
  pub queue_id : List ℕ
  pub identity : List ℕ
  pub amount : ℕ
  pub asset : List ℕ
  pub status : EscrowStatus
  pub created_at : ℕ
  pub expires_at : ℕ
  pub released_at : Option ℕ

pub record Payload : Type 0 where
  pub queue_id : List ℕ
  pub identity : List ℕ
  pub amount : ℕ
  pub asset : List ℕ
  pub hold_days : Option ℕ

-- What `serviceEmitter` is told.
pub data ServiceEvent : Type 0 where
  escrow_deposited escrow_released escrow_refunded escrow_expired : EscrowRecord → ServiceEvent

pub record Store : Type 0 where
  pub escrows : List ℕ → Option EscrowRecord
  pub emitted : List ServiceEvent

-- A call returns a value, or throws an error with an HTTP status.
pub data Try (A : Type 0) : Type 0 where
  returned : A → Try A
  threw : ℕ → Try A

abbrev pub same_text : List ℕ → List ℕ → Bool
same_text [] [] = true
same_text [] (y ∷ ys) = false
same_text (x ∷ xs) [] = false
same_text (x ∷ xs) (y ∷ ys) = (x == y) && same_text xs ys

-- `store.set(NS, id, escrow)` and the emission that follows it.
abbrev pub keep : List ℕ → EscrowRecord → (EscrowRecord → ServiceEvent) → Store → Store
keep id escrow event s = record {
  escrows = (λ j. if same_text id j then some escrow else s.escrows j);
  emitted = s.emitted ++ event escrow ∷ [];
}

-- `${queueId}:${identity}`
abbrev pub id_of : List ℕ → List ℕ → List ℕ
id_of queue_id identity = queue_id ++ 58 ∷ identity

abbrev pub hold_days_default : ℕ
hold_days_default = 30

abbrev pub new_escrow : ℕ → Payload → EscrowRecord
new_escrow now payload = record {
  id = id_of payload.queue_id payload.identity;
  queue_id = payload.queue_id;
  identity = payload.identity;
  amount = payload.amount;
  asset = payload.asset;
  status = active;
  created_at = now;
  expires_at = now + unwrap_or payload.hold_days hold_days_default * 86400000;
  released_at = none;
}

-- The last time that a `Date` can hold; `toISOString` throws a `RangeError` past it, which the error
-- handler answers with 500.
abbrev pub last_time : ℕ
last_time = 8640000000000000

abbrev pub dated : {A : Type 0} → EscrowRecord → A → Try A
dated escrow a = if ltb last_time escrow.expires_at then threw 500 else returned a

unfoldable pub deposit_escrow : ℕ → Payload → Store → Try (EscrowRecord × Store)
deposit_escrow now payload s =
    if is_some (s.escrows (id_of payload.queue_id payload.identity))
    then threw 409
    else dated (new_escrow now payload) (
      new_escrow now payload,
      keep (id_of payload.queue_id payload.identity) (new_escrow now payload) escrow_deposited s,
    )

abbrev pub is_active : EscrowStatus → Bool
is_active active = true
is_active released = false
is_active refunded = false
is_active expired = false

abbrev pub moved : ℕ → EscrowStatus → EscrowRecord → EscrowRecord
moved now next escrow = record escrow { status = next; released_at = some now }

-- A guard returns the status of the error that it throws.
abbrev pub checked : {A : Type 0} → Option ℕ → A → Try A
checked none a = returned a
checked (some status) a = threw status

abbrev pub transition_found :
    ℕ
    → List ℕ
    → EscrowStatus
    → (EscrowRecord → ServiceEvent)
    → (EscrowRecord → Option ℕ)
    → Option EscrowRecord
    → Store
    → Try (Option EscrowRecord × Store)
transition_found now id next event guard none s = returned (none, s)
transition_found now id next event guard (some escrow) s =
    if is_active escrow.status
    then checked (guard escrow)
        (some (moved now next escrow), keep id (moved now next escrow) event s)
    else threw 409

unfoldable pub transition :
    ℕ
    → List ℕ
    → EscrowStatus
    → (EscrowRecord → ServiceEvent)
    → (EscrowRecord → Option ℕ)
    → Store
    → Try (Option EscrowRecord × Store)
transition now id next event guard s = transition_found now id next event guard (s.escrows id) s

abbrev pub no_guard : EscrowRecord → Option ℕ
no_guard escrow = none

abbrev pub has_expired : ℕ → EscrowRecord → Option ℕ
has_expired clock escrow = if ltb clock escrow.expires_at then some 422 else none

unfoldable pub release_escrow : ℕ → List ℕ → Store → Try (Option EscrowRecord × Store)
release_escrow now id s = transition now id released escrow_released no_guard s

unfoldable pub refund_escrow : ℕ → List ℕ → Store → Try (Option EscrowRecord × Store)
refund_escrow now id s = transition now id refunded escrow_refunded no_guard s

-- The guard reads the clock before the record is stamped.
unfoldable pub expire_escrow : ℕ → ℕ → List ℕ → Store → Try (Option EscrowRecord × Store)
expire_escrow clock now id s = transition now id expired escrow_expired (has_expired clock) s

-- The functions of the service that change state; the results are dropped.
pub data Call : Type 0 where
  deposit_call : ℕ → Payload → Call
  release_call refund_call : ℕ → List ℕ → Call
  expire_call : ℕ → ℕ → List ℕ → Call

abbrev pub dropped : {A : Type 0} → Try (A × Store) → Try Store
dropped (returned (a, t)) = returned t
dropped (threw status) = threw status

unfoldable pub invoke : Call → Store → Try Store
invoke (deposit_call now payload) s = dropped (deposit_escrow now payload s)
invoke (release_call now id) s = dropped (release_escrow now id s)
invoke (refund_call now id) s = dropped (refund_escrow now id s)
invoke (expire_call clock now id) s = dropped (expire_escrow clock now id s)

abbrev pub empty : Store
empty = record { escrows = (λ id. none); emitted = [] }

-- The stores that calls lead to.
pub data Reach : Store → Type 0 where
  fresh : Reach empty
  later : {s t : Store} (c : Call) → Reach s → invoke c s ≡ returned t → Reach t
