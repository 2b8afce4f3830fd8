-- ===== src/Factory/Storage.antt =====
-- The private helpers of contracts/lineproof-queue-factory/src/lib.rs, and its read-only entry
-- points.
use line_proof.Base.{
  ℕ, not, Bool, false, Option, none, some, List, [], ◌∷◌, ◌++◌, ◌==◌, if◌then◌else◌, unwrap_or,
  length, without,
}
use line_proof.Soroban.Program.{
  Env, Program, ◌>>=◌, ◌>>◌, returns, get, set, expect, panic_if, extend_ttl, publish, require_auth,
}
use line_proof.Factory.Types.{
  QueueMetadata, Kind, factory_event, config_key, slug_index_key, approvals_key, registry_key,
  approved_key, schema, ttl_threshold, ttl_extend_to,
}

-- `emit`
abbrev pub emit : Kind → ℕ → ℕ → ℕ → ℕ → Program schema (Unit {0})
emit kind slug contract_id version timestamp = publish (factory_event kind slug contract_id version)

-- `QueueFactoryImpl::require_admin`
abbrev pub require_admin : Env → ℕ → Program schema (Unit {0})
require_admin env admin = do
  require_auth env admin
  stored ← get config_key
  config ← expect stored "not initialized"
  panic_if (not (config.admin == admin)) "unauthorized"

abbrev pub check_approved : ℕ → ℕ → Option ℕ → Program schema (Unit {0})
check_approved version wasm_hash none = returns tt
check_approved version wasm_hash (some approved_hash) = do
  panic_if (not (approved_hash == wasm_hash)) "wasm hash not approved"
  extend_ttl (approved_key version) ttl_threshold ttl_extend_to

abbrev pub validate_approved_hash : ℕ → ℕ → Program schema (Unit {0})
validate_approved_hash version wasm_hash =
    get (approved_key version) >>= check_approved version wasm_hash

abbrev pub require_approved_hash : ℕ → ℕ → Program schema (Unit {0})
require_approved_hash version wasm_hash = do
  enabled ← get approvals_key
  if not (unwrap_or enabled false) then returns tt else do
    extend_ttl approvals_key ttl_threshold ttl_extend_to
    stored ← get (approved_key version)
    approved_hash ← expect stored "WASM hash not approved"
    extend_ttl (approved_key version) ttl_threshold ttl_extend_to
    panic_if (not (approved_hash == wasm_hash)) "WASM hash not approved"

abbrev pub get_queue_meta : ℕ → Program schema QueueMetadata
get_queue_meta slug = do
  stored ← get (registry_key slug)
  metadata ← expect stored "queue not found"
  extend_ttl (registry_key slug) ttl_threshold ttl_extend_to
  returns metadata

-- The two calls by which every handler stores a queue's metadata.
abbrev pub store_metadata : ℕ → QueueMetadata → Program schema (Unit {0})
store_metadata slug metadata = do
  set (registry_key slug) metadata
  extend_ttl (registry_key slug) ttl_threshold ttl_extend_to

abbrev pub append_slug : ℕ → Program schema (Unit {0})
append_slug slug = do
  slugs ← get slug_index_key
  set slug_index_key (unwrap_or slugs [] ++ slug ∷ [])
  extend_ttl slug_index_key ttl_threshold ttl_extend_to

abbrev pub remove_slug : ℕ → Program schema (Unit {0})
remove_slug slug = do
  slugs ← get slug_index_key
  set slug_index_key (without slug (unwrap_or slugs []))
  extend_ttl slug_index_key ttl_threshold ttl_extend_to

unfoldable pub get_queue : ℕ → Program schema (Option QueueMetadata)
get_queue slug = get (registry_key slug)

unfoldable pub list_queues : Program schema (List ℕ)
list_queues = do slugs ← get slug_index_key; returns (unwrap_or slugs [])

abbrev is_active : Option QueueMetadata → Bool
is_active none = false
is_active (some metadata) = metadata.active

unfoldable pub verify_queue : ℕ → Program schema Bool
verify_queue slug = do found ← get (registry_key slug); returns (is_active found)

unfoldable pub queue_count : Program schema ℕ
queue_count = do slugs ← get slug_index_key; returns (length (unwrap_or slugs []))
