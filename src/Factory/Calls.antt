-- ===== src/Factory/Calls.antt =====
-- The entry points of the trait `QueueFactory` that change state, as one type of calls, and the
-- histories of a factory.
use line_proof.Base.{ℕ, ◌≡◌}
use line_proof.Soroban.Schema.{Observed}
use line_proof.Soroban.Program.{Env, Program, ◌>>◌, returns}
use line_proof.Soroban.Exec.{ok, exec, blank}
use line_proof.Factory.Types.{schema}
use line_proof.Factory.Contract.{
  initialize, deploy_queue, register_queue, register_approved_hash, deactivate_queue,
  reactivate_queue, destroy_queue, set_config, upgrade_queue,
}

-- Every entry point but `initialize`; the arguments are the source's, `env` left out.
pub data Call : Type 0 where
  deploy_queue_call : ℕ → ℕ → ℕ → ℕ → ℕ → Call
  register_queue_call : ℕ → ℕ → ℕ → ℕ → Call
  register_approved_hash_call : ℕ → ℕ → ℕ → Call
  deactivate_queue_call reactivate_queue_call destroy_queue_call : ℕ → ℕ → Call
  set_config_call : ℕ → ℕ → ℕ → Call
  upgrade_queue_call : ℕ → ℕ → ℕ → ℕ → Call

-- The results are dropped.
unfoldable pub invoke : Env → Call → Program schema (Unit {0})
invoke env (deploy_queue_call deployer slug name version hash) =
    deploy_queue env deployer slug name version hash >> returns tt
invoke env (register_queue_call admin slug contract_id version) =
    register_queue env admin slug contract_id version
invoke env (register_approved_hash_call admin version hash) =
    register_approved_hash env admin version hash
invoke env (deactivate_queue_call admin slug) = deactivate_queue env admin slug
invoke env (reactivate_queue_call admin slug) = reactivate_queue env admin slug
invoke env (destroy_queue_call admin slug) = destroy_queue env admin slug
invoke env (set_config_call admin min_version max_version) =
    set_config env admin min_version max_version
invoke env (upgrade_queue_call admin slug version hash) = upgrade_queue env admin slug version hash

-- A factory that was set up on blank storage, and has taken calls since.
pub data Reach : Observed schema → Type 0 where
  set_up :
      (env : Env) (admin : ℕ) {s : Observed schema}
      → exec (initialize env admin) blank ≡ ok tt s
      → Reach s
  later :
      (env : Env) (call : Call) {s s' : Observed schema}
      → Reach s
      → exec (invoke env call) s ≡ ok tt s'
      → Reach s'
