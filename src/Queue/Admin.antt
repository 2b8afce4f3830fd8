-- ===== src/Queue/Admin.antt =====
-- The administrative entry points of contracts/lineproof-queue/src/lib.rs: set-up, the two-step
-- transfer of the admin role, upgrade and migration.
use line_proof.Base.{ℕ, not, ◌==◌, leb, unwrap_or}
use line_proof.Soroban.Program.{
  Env, Program, ◌>>=◌, ◌>>◌, get, set, remove, expect, panic_if, extend_ttl, extend_instance_ttl,
  publish, require_auth,
}
use line_proof.Queue.Types.{
  QueueConfig, Kind, ownership_transferred, config_key, next_id_key, active_key, idx_key,
  version_key, pending_key, schema, ttl_threshold, ttl_extend_to, current_version,
}
use line_proof.Queue.Storage.{emit, require_admin, get_config_internal, store_config}

unfoldable pub initialize : Env → ℕ → QueueConfig → Program schema (Unit {0})
initialize env admin config = do
  require_auth env admin
  panic_if (not (config.admin == admin)) "not_admin"
  set config_key config
  extend_ttl config_key ttl_threshold ttl_extend_to
  set next_id_key 1
  extend_ttl next_id_key ttl_threshold ttl_extend_to
  set active_key 0
  extend_ttl active_key ttl_threshold ttl_extend_to
  set idx_key 0
  extend_ttl idx_key ttl_threshold ttl_extend_to
  set version_key current_version
  extend_ttl version_key ttl_threshold ttl_extend_to
  extend_instance_ttl ttl_threshold ttl_extend_to
  emit Kind.initialized 0 admin 0

unfoldable pub propose_admin : Env → ℕ → ℕ → Program schema (Unit {0})
propose_admin env current_admin proposed_admin = do
  config ← get_config_internal
  require_admin env config current_admin
  set pending_key proposed_admin
  extend_ttl pending_key ttl_threshold ttl_extend_to

unfoldable pub accept_admin : Env → ℕ → Program schema (Unit {0})
accept_admin env proposed_admin = do
  require_auth env proposed_admin
  stored ← get pending_key
  awaited ← expect stored "not_pending_admin"
  panic_if (not (awaited == proposed_admin)) "not_pending_admin"
  config ← get_config_internal
  store_config (record config { admin = proposed_admin })
  remove pending_key
  publish (ownership_transferred config.admin proposed_admin)

-- The new WASM hash is not used: the call only checks the admin and publishes an event.
unfoldable pub upgrade : Env → ℕ → ℕ → Program schema (Unit {0})
upgrade env admin new_wasm_hash = do
  require_auth env admin
  config ← get_config_internal
  panic_if (not (config.admin == admin)) "unauthorized: only queue admin can upgrade"
  emit Kind.upgraded 0 admin env.timestamp

unfoldable pub migrate : Env → ℕ → ℕ → ℕ → Program schema (Unit {0})
migrate env admin from_version to_version = do
  require_auth env admin
  config ← get_config_internal
  panic_if (not (config.admin == admin)) "unauthorized: only queue admin can migrate"
  stored ← get version_key
  panic_if (not (unwrap_or stored current_version == from_version))
      "version mismatch: stored version does not match from_version"
  panic_if (leb to_version from_version) "to_version must be greater than from_version"
  set version_key to_version
  extend_ttl version_key ttl_threshold ttl_extend_to
  emit Kind.migrated from_version admin to_version
