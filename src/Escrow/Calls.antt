-- ===== src/Escrow/Calls.antt =====
-- The entry points of the trait `Escrow` that change state, as one type of calls, and the
-- histories of an escrow contract. The contract has no set-up call.
use line_proof.Base.{ℕ, ◌≡◌}
use line_proof.Int.{ℤ}
use line_proof.Soroban.Schema.{Observed}
use line_proof.Soroban.Program.{Env, Program}
use line_proof.Soroban.Exec.{ok, exec, blank}
use line_proof.Escrow.Types.{EscrowConfig, schema}
use line_proof.Escrow.Contract.{deposit, release, refund, expire, set_config}

pub data Call : Type 0 where
  deposit_call : ℕ → ℕ → ℤ → ℕ → Call
  release_call refund_call : ℕ → ℕ → ℕ → Call
  expire_call : ℕ → ℕ → Call
  set_config_call : ℕ → EscrowConfig → Call

unfoldable pub invoke : Env → Call → Program schema (Unit {0})
invoke env (deposit_call caller queue_id amount asset) = deposit env caller queue_id amount asset
invoke env (release_call admin identity queue_id) = release env admin identity queue_id
invoke env (refund_call admin identity queue_id) = refund env admin identity queue_id
invoke env (expire_call identity queue_id) = expire env identity queue_id
invoke env (set_config_call admin config) = set_config env admin config

pub data Reach : Observed schema → Type 0 where
  fresh : Reach blank
  later :
      (env : Env) (call : Call) {s s' : Observed schema}
      → Reach s
      → exec (invoke env call) s ≡ ok tt s'
      → Reach s'
