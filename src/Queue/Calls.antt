-- ===== src/Queue/Calls.antt =====
-- The entry points of the trait `Queue` that change state, as one type of calls, and the histories
-- of a queue contract. A call that faults is rolled back, so it is no step.
use line_proof.Base.{ℕ, ◌+◌, ◌≡◌, refl, ◌⊎◌, inl, inr, List}
use line_proof.Soroban.Schema.{Observed}
use line_proof.Soroban.Program.{Env, Program, ◌>>◌, returns}
use line_proof.Soroban.Exec.{ok, exec, blank}
use line_proof.Queue.Types.{QueueConfig, schema}
use line_proof.Queue.Admin.{initialize, propose_admin, accept_admin, upgrade, migrate}
use line_proof.Queue.Lifecycle.{open_enrollment, close_enrollment, close}
use line_proof.Queue.Positions.{
  enroll_position, cancel_position, expire_position, expire_positions_batch,
}
use line_proof.Queue.Advance.{advance}

-- The arguments are the source's, `env` left out.
pub data Call : Type 0 where
  initialize_call : ℕ → QueueConfig → Call
  propose_admin_call : ℕ → ℕ → Call
  accept_admin_call : ℕ → Call
  open_enrollment_call : ℕ → Call
  close_enrollment_call : ℕ → Call
  enroll_position_call : ℕ → Call
  cancel_position_call : ℕ → ℕ → Call
  advance_call : ℕ → ℕ → Call
  expire_position_call : ℕ → ℕ → Call
  expire_positions_batch_call : ℕ → List ℕ → Call
  close_call : ℕ → Call
  upgrade_call : ℕ → ℕ → Call
  migrate_call : ℕ → ℕ → ℕ → Call

-- The results are dropped.
unfoldable pub invoke : Env → Call → Program schema (Unit {0})
invoke env (initialize_call admin config) = initialize env admin config
invoke env (propose_admin_call current proposed) = propose_admin env current proposed
invoke env (accept_admin_call proposed) = accept_admin env proposed
invoke env (open_enrollment_call admin) = open_enrollment env admin
invoke env (close_enrollment_call admin) = close_enrollment env admin
invoke env (enroll_position_call identity) = enroll_position env identity >> returns tt
invoke env (cancel_position_call identity id) = cancel_position env identity id
invoke env (advance_call admin batch_size) = advance env admin batch_size >> returns tt
invoke env (expire_position_call admin id) = expire_position env admin id
invoke env (expire_positions_batch_call admin ids) = expire_positions_batch env admin ids
invoke env (close_call admin) = close env admin
invoke env (upgrade_call admin hash) = upgrade env admin hash
invoke env (migrate_call admin from to) = migrate env admin from to

-- Whether a call sets the contract up; nothing in the source prevents it on a contract in use.
abbrev pub set_ups : Call → ℕ
set_ups (initialize_call admin config) = 1
set_ups _ = 0

pub set_ups_cases :
    (call : Call)
    → (set_ups call ≡ 0)
      ⊎ ((admin : ℕ) × (config : QueueConfig) × (call ≡ initialize_call admin config))
set_ups_cases (initialize_call admin config) = inr (admin, config, refl)
set_ups_cases _ = inl refl

-- `Reach n s`: a contract that was set up on blank storage has come to `s` by calls of its entry
-- points, `n` of which have set it up again.
pub data Reach : ℕ → Observed schema → Type 0 where
  set_up :
      (env : Env) (admin : ℕ) (config : QueueConfig) {s : Observed schema}
      → exec (initialize env admin config) blank ≡ ok tt s
      → Reach 0 s
  later :
      {n : ℕ} {s s' : Observed schema} (env : Env) (call : Call)
      → Reach n s
      → exec (invoke env call) s ≡ ok tt s'
      → Reach (n + set_ups call) s'
