-- ===== src/Factory/Contract.antt =====
-- The entry points of contracts/lineproof-queue-factory/src/lib.rs that change state.
use line_proof.Base.{ℕ, ◌||◌, true, false, Option, none, some, [], ltb, leb, not}
use line_proof.Soroban.Program.{
  Env, Program, ◌>>=◌, ◌>>◌, returns, faults, not_deployed, get, has, set, remove, unwrap, expect,
  panic_if, extend_ttl, require_auth,
}
use line_proof.Factory.Types.{
  Kind, config_key, slug_index_key, approvals_key, registry_key, approved_key, schema,
  ttl_threshold, ttl_extend_to,
}
use line_proof.Factory.Storage.{
  emit, require_admin, validate_approved_hash, require_approved_hash, get_queue_meta,
  store_metadata, append_slug, remove_slug,
}

unfoldable pub initialize : Env → ℕ → Program schema (Unit {0})
initialize env admin = do
  require_auth env admin
  present ← has config_key
  panic_if present "already initialized"
  set config_key (record { admin = admin; min_version = 1; max_version = 1 })
  extend_ttl config_key ttl_threshold ttl_extend_to
  set slug_index_key []
  extend_ttl slug_index_key ttl_threshold ttl_extend_to
  emit Kind.init (env.symbol "") env.current_contract_address 0 0

-- The deployer's answer: the new contract's address, or a refusal of the host.
abbrev deployment : Option ℕ → Program schema ℕ
deployment none = faults not_deployed
deployment (some contract_id) = returns contract_id

unfoldable pub deploy_queue : Env → ℕ → ℕ → ℕ → ℕ → ℕ → Program schema ℕ
deploy_queue env deployer slug name version wasm_hash = do
  require_auth env deployer
  stored ← get config_key
  config ← unwrap stored
  panic_if (ltb version config.min_version || ltb config.max_version version)
      "version out of bounds"
  validate_approved_hash version wasm_hash
  require_approved_hash version wasm_hash
  present ← has (registry_key slug)
  panic_if present "queue with this slug already exists"
  contract_id ← deployment (env.deploy wasm_hash wasm_hash)
  store_metadata slug (record {
    slug = slug;
    name = name;
    owner = deployer;
    contract_id = contract_id;
    version = version;
    deployed_at = env.timestamp;
    active = true;
  })
  append_slug slug
  emit Kind.deployed slug contract_id version env.timestamp
  returns contract_id

unfoldable pub register_queue : Env → ℕ → ℕ → ℕ → ℕ → Program schema (Unit {0})
register_queue env admin slug contract_id version = do
  require_admin env admin
  present ← has (registry_key slug)
  panic_if present "queue already registered"
  store_metadata slug (record {
    slug = slug;
    name = env.symbol "imported";
    owner = admin;
    contract_id = contract_id;
    version = version;
    deployed_at = env.timestamp;
    active = true;
  })
  append_slug slug
  emit Kind.registered slug contract_id version env.timestamp

unfoldable pub register_approved_hash : Env → ℕ → ℕ → ℕ → Program schema (Unit {0})
register_approved_hash env admin version wasm_hash = do
  require_admin env admin
  set (approved_key version) wasm_hash
  extend_ttl (approved_key version) ttl_threshold ttl_extend_to
  set approvals_key true
  extend_ttl approvals_key ttl_threshold ttl_extend_to

unfoldable pub deactivate_queue : Env → ℕ → ℕ → Program schema (Unit {0})
deactivate_queue env admin slug = do
  require_admin env admin
  metadata ← get_queue_meta slug
  store_metadata slug (record metadata { active = false })
  emit Kind.deactivated slug metadata.contract_id metadata.version env.timestamp

unfoldable pub reactivate_queue : Env → ℕ → ℕ → Program schema (Unit {0})
reactivate_queue env admin slug = do
  require_admin env admin
  metadata ← get_queue_meta slug
  store_metadata slug (record metadata { active = true })
  emit Kind.reactivated slug metadata.contract_id metadata.version env.timestamp

unfoldable pub destroy_queue : Env → ℕ → ℕ → Program schema (Unit {0})
destroy_queue env admin slug = do
  require_admin env admin
  present ← has (registry_key slug)
  panic_if (not present) "queue not found"
  stored ← get (registry_key slug)
  metadata ← expect stored "queue not found"
  remove (registry_key slug)
  remove_slug slug
  emit Kind.destroyed slug metadata.contract_id metadata.version env.timestamp

unfoldable pub set_config : Env → ℕ → ℕ → ℕ → Program schema (Unit {0})
set_config env admin min_version max_version = do
  require_admin env admin
  stored ← get {S = schema} config_key
  config ← unwrap stored
  set config_key (record config { min_version = min_version; max_version = max_version })
  extend_ttl config_key ttl_threshold ttl_extend_to

unfoldable pub upgrade_queue : Env → ℕ → ℕ → ℕ → ℕ → Program schema (Unit {0})
upgrade_queue env admin slug new_version new_wasm_hash = do
  require_admin env admin
  stored ← get config_key
  config ← unwrap stored
  panic_if (ltb new_version config.min_version || ltb config.max_version new_version)
      "version out of bounds"
  metadata ← get_queue_meta slug
  panic_if (leb new_version metadata.version) "version must increase"
  validate_approved_hash new_version new_wasm_hash
  require_approved_hash new_version new_wasm_hash
  store_metadata slug (record metadata { version = new_version })
  emit Kind.upgraded slug metadata.contract_id new_version env.timestamp
