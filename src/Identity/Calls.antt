-- ===== src/Identity/Calls.antt =====
-- The entry points of the trait `Identity` that change state, as one type of calls, and the
-- histories of an identity contract.
use line_proof.Base.{ℕ, ◌≡◌, Bool}
use line_proof.Soroban.Schema.{Observed}
use line_proof.Soroban.Program.{Env, Program}
use line_proof.Soroban.Exec.{ok, exec, blank}
use line_proof.Identity.Types.{schema}
use line_proof.Identity.Contract.{
  bind, unbind, set_transfer_allowed, record_transfer_attempt, initialize, revoke,
}

pub data Call : Type 0 where
  bind_call unbind_call : ℕ → ℕ → Call
  set_transfer_allowed_call : ℕ → Bool → Call
  record_transfer_attempt_call : ℕ → ℕ → ℕ → Call
  initialize_call : ℕ → Call
  revoke_call : ℕ → ℕ → Call

unfoldable pub invoke : Env → Call → Program schema (Unit {0})
invoke env (bind_call identity queue_id) = bind env identity queue_id
invoke env (unbind_call identity queue_id) = unbind env identity queue_id
invoke env (set_transfer_allowed_call admin allowed) = set_transfer_allowed env admin allowed
invoke env (record_transfer_attempt_call from to queue_id) =
    record_transfer_attempt env from to queue_id
invoke env (initialize_call admin) = initialize env admin
invoke env (revoke_call admin identity) = revoke env admin identity

pub data Reach : Observed schema → Type 0 where
  fresh : Reach blank
  later :
      (env : Env) (call : Call) {s s' : Observed schema}
      → Reach s
      → exec (invoke env call) s ≡ ok tt s'
      → Reach s'
