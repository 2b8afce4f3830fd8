-- ===== src/Escrow/Audit.antt =====
-- The events of the escrow contract tell its whole book.
use line_proof.Base.{
  ℕ, ◌+◌, ◌*◌, ◌≡◌, refl, sym, subst, Option, none, some, List, [], ◌∷◌, ◌++◌, arith, ◌==◌, ◌&&◌,
  if◌then◌else◌,
}
use line_proof.Int.{ℤ, pos, ◌+ℤ◌, ◌-ℤ◌}
use line_proof.Soroban.Schema.{Observed}
use line_proof.Soroban.Program.{Env}
use line_proof.Soroban.Exec.{ok, exec}
use line_proof.Escrow.Types.{
  EscrowStatus, EscrowRecord, Kind, deposited, released, refunded, expired, Event, escrow_event,
  schema,
}
use line_proof.Escrow.Contract.{held_record}
use line_proof.Escrow.Effects.{deposit-ok, release-ok, refund-ok, expire-ok, set_config-ok}
use line_proof.Escrow.Steps
use line_proof.Escrow.Steps.{entry_of, total_held, settled}
use line_proof.Escrow.Calls.{
  Call, deposit_call, release_call, refund_call, expire_call, set_config_call, invoke, Reach, fresh,
  later,
}

-- A deposit raises the balance of its queue, any other event lowers it.
abbrev pub rebalance : ℕ → ℤ → Event → ℤ
rebalance q balance (escrow_event deposited queue_id identity amount) =
    if queue_id == q then balance +ℤ amount else balance
rebalance q balance (escrow_event _ queue_id identity amount) =
    if queue_id == q then balance -ℤ amount else balance

-- The status that a record has after an event.
abbrev pub status_after : Kind → EscrowStatus
status_after deposited = EscrowStatus.active
status_after released = EscrowStatus.released
status_after refunded = EscrowStatus.refunded
status_after expired = EscrowStatus.expired

abbrev pub reenter : ℕ → ℕ → Option (EscrowStatus × ℤ) → Event → Option (EscrowStatus × ℤ)
reenter q i known (escrow_event kind queue_id identity amount) =
    if queue_id == q && identity == i then some (status_after kind, amount) else known

-- The events in the order in which they were published.
abbrev pub replay {ℓ} : {B : Type ℓ} → (B → Event → B) → B → List Event → B
replay f b [] = b
replay f b (e ∷ es) = replay f (f b e) es

replay-append {ℓ} :
    {B : Type ℓ} (f : B → Event → B) (b : B) (es : List Event) (e : Event)
    → replay f b (es ++ e ∷ []) ≡ f (replay f b es) e
replay-append f b [] e = refl
replay-append f b (x ∷ xs) e = replay-append f (f b x) xs e

-- What the events tell of a record.
abbrev pub summary : Option EscrowRecord → Option (EscrowStatus × ℤ)
summary none = none
summary (some entry) = some (entry.status, entry.amount)

pub record IsReplayed (s : Observed schema) : Type 0 where
  pub balance : (q : ℕ) → total_held s q ≡ replay (rebalance q) (pos 0) s.log
  pub entries : (q i : ℕ) → summary (entry_of s q i) ≡ replay (reenter q i) none s.log

settled-IsReplayed :
    (env : Env) (identity queue_id : ℕ) (entry : EscrowRecord) (kind : Kind) (s : Observed schema)
    → ((q : ℕ) (balance : ℤ)
        → rebalance q balance (escrow_event kind queue_id identity entry.amount)
          ≡ (if queue_id == q then balance -ℤ entry.amount else balance))
    → IsReplayed s
    → IsReplayed (settled env identity queue_id entry (status_after kind) kind s)
settled-IsReplayed env identity queue_id entry kind s lowers r = record {
  balance = λ q. ground (
    arith,
    r.balance q,
    lowers q (replay (rebalance q) (pos 0) s.log),
    replay-append (rebalance q) (pos 0) s.log (escrow_event kind queue_id identity entry.amount),
  );
  entries = λ q i. ground (
    arith,
    r.entries q i,
    replay-append (reenter q i) none s.log (escrow_event kind queue_id identity entry.amount),
  );
}

deposited-IsReplayed :
    (env : Env) (caller queue_id : ℕ) (amount : ℤ) (entry : EscrowRecord) (s : Observed schema)
    → entry.status ≡ EscrowStatus.active
    → entry.amount ≡ amount
    → IsReplayed s
    → IsReplayed (Steps.deposited env caller queue_id amount entry s)
deposited-IsReplayed env caller queue_id amount entry s on has r = record {
  balance = λ q. ground (
    arith,
    r.balance q,
    replay-append (rebalance q) (pos 0) s.log (escrow_event deposited queue_id caller amount),
  );
  entries = λ q i. ground (
    arith,
    r.entries q i,
    replay-append (reenter q i) none s.log (escrow_event deposited queue_id caller amount),
  );
}

invoke-IsReplayed :
    (env : Env) (call : Call) (s s' : Observed schema)
    → IsReplayed s
    → exec (invoke env call) s ≡ ok tt s'
    → IsReplayed s'
unfolding invoke
invoke-IsReplayed env (deposit_call caller queue_id amount asset) s s' r h =
    let (c, admits, soon, fits, after) = deposit-ok env caller queue_id amount asset s s' h in
    subst IsReplayed (sym after) (
      deposited-IsReplayed env caller queue_id amount
        (held_record env caller queue_id amount asset (env.timestamp + c.hold_period_days * 86400))
        s refl refl r)
invoke-IsReplayed env (release_call admin identity queue_id) s s' r h =
    let (entry, at, signed, on, after) = release-ok env admin identity queue_id s s' h in
    subst IsReplayed (sym after)
      (settled-IsReplayed env identity queue_id entry released s (λ q balance. refl) r)
invoke-IsReplayed env (refund_call admin identity queue_id) s s' r h =
    let (entry, at, signed, on, after) = refund-ok env admin identity queue_id s s' h in
    subst IsReplayed (sym after)
      (settled-IsReplayed env identity queue_id entry refunded s (λ q balance. refl) r)
invoke-IsReplayed env (expire_call identity queue_id) s s' r h =
    let (entry, at, late, on, after) = expire-ok env identity queue_id s s' h in
    subst IsReplayed (sym after)
      (settled-IsReplayed env identity queue_id entry expired s (λ q balance. refl) r)
invoke-IsReplayed env (set_config_call admin config) s s' r h =
    let (signed, ordered, period, after) = set_config-ok env admin config s s' h in
    subst IsReplayed (sym after) (record { balance = r.balance; entries = r.entries })

-- In every history of the escrow contract, replaying the published events rebuilds the running total
-- of each queue, and for each queue and identity the status and amount of the stored record, or that
-- there is none.
pub Reach-IsReplayed : (s : Observed schema) → Reach s → IsReplayed s
Reach-IsReplayed _ fresh = record { balance = λ q. refl; entries = λ q i. refl }
Reach-IsReplayed _ (later env call {s} {s'} r h) =
    invoke-IsReplayed env call s s' (Reach-IsReplayed s r) h
