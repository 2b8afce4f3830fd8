-- ===== src/Escrow/Deposit.antt =====
-- The exact conditions under which a deposit is recorded.
use line_proof.Base.{ℕ, ◌+◌, ◌*◌, ◌^◌, ◌<◌, ◌≡◌, ◌↔◌, ◌∙◌, ap, sym, true, arith}
use line_proof.Int.{ℤ, ◌+ℤ◌}
use line_proof.Soroban.Schema.{Observed}
use line_proof.Soroban.Program.{Env, ◌>>=◌, ◌>>◌}
use line_proof.Soroban.Exec.{ok, exec, exec-bind, and_then}
use line_proof.Escrow.Types.{EscrowRecord, EscrowConfig, Kind, schema}
use line_proof.Escrow.Contract.{
  admission, expiry, held_record, store_record, increment_total, emit, deposit, in_i128,
}
use line_proof.Escrow.Effects.{deposit-ok}
use line_proof.Escrow.Steps.{total_held, Admits, deposited}

admission-runs :
    (env : Env) (caller queue_id : ℕ) (amount : ℤ) (c : EscrowConfig) (s : Observed schema)
    → Admits env caller queue_id amount c s
    → exec (admission env caller queue_id amount) s ≡ ok c s
admission-runs env caller queue_id amount c s a =
    ground (arith, a.configured, a.signed, a.positive, a.first, a.large, a.small)

expiry-runs :
    (env : Env) (c : EscrowConfig) (s : Observed schema)
    → env.timestamp + c.hold_period_days * 86400 < 2 ^ 64
    → exec (expiry env c) s ≡ ok (env.timestamp + c.hold_period_days * 86400) s
expiry-runs env c s soon = ground arith

record-runs :
    (env : Env) (entry : EscrowRecord) (caller queue_id : ℕ) (amount : ℤ) (s : Observed schema)
    → in_i128 (total_held s queue_id +ℤ amount) ≡ true
    → exec
        (store_record caller queue_id entry
          >> (increment_total queue_id amount >> emit Kind.deposited queue_id caller amount))
        s
      ≡ ok tt (deposited env caller queue_id amount entry s)
record-runs env entry caller queue_id amount s fits = ground arith

deposit-runs :
    (env : Env) (caller queue_id : ℕ) (amount : ℤ) (asset : ℕ) (c : EscrowConfig)
    (s : Observed schema)
    → Admits env caller queue_id amount c s
    → env.timestamp + c.hold_period_days * 86400 < 2 ^ 64
    → in_i128 (total_held s queue_id +ℤ amount) ≡ true
    → exec (deposit env caller queue_id amount asset) s
      ≡ ok tt (
          deposited env caller queue_id amount
            (held_record env caller queue_id amount asset
              (env.timestamp + c.hold_period_days * 86400))
            s)
unfolding deposit
deposit-runs env caller queue_id amount asset c s admits soon fits =
    let finish = λ (at : ℕ).
      store_record caller queue_id (held_record env caller queue_id amount asset at)
      >> (increment_total queue_id amount >> emit Kind.deposited queue_id caller amount) in
    let timed = λ (d : EscrowConfig). expiry env d >>= finish in
    exec-bind (admission env caller queue_id amount) timed s
    ∙ ap (λ r. and_then r (λ d t. exec (timed d) t))
        (admission-runs env caller queue_id amount c s admits)
    ∙ exec-bind (expiry env c) finish s
    ∙ ap (λ r. and_then r (λ at t. exec (finish at) t)) (expiry-runs env c s soon)
    ∙ record-runs env
        (held_record env caller queue_id amount asset (env.timestamp + c.hold_period_days * 86400))
        caller queue_id amount s fits

-- `deposit` returns exactly if the queue is configured, the caller has signed and has no record, the
-- amount is positive and within the configured bounds, and neither the expiry time nor the new total
-- overflows; then an active record with that expiry is stored, the total is raised by the amount and
-- one event is published.
pub deposit-exact :
    (env : Env) (caller queue_id : ℕ) (amount : ℤ) (asset : ℕ) (s s' : Observed schema)
    → (exec (deposit env caller queue_id amount asset) s ≡ ok tt s') ↔ (
        (c : EscrowConfig) × Admits env caller queue_id amount c s
        × (env.timestamp + c.hold_period_days * 86400 < 2 ^ 64)
        × (in_i128 (total_held s queue_id +ℤ amount) ≡ true)
        × (s'
            ≡ deposited env caller queue_id amount
                (held_record env caller queue_id amount asset
                  (env.timestamp + c.hold_period_days * 86400))
                s))
deposit-exact env caller queue_id amount asset s s' = (
  deposit-ok env caller queue_id amount asset s s',
  λ (c, admits, soon, fits, after).
      deposit-runs env caller queue_id amount asset c s admits soon fits
      ∙ ap (λ t. ok tt t) (sym after),
)
