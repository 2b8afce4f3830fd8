-- ===== src/Queue/Storage.antt =====
-- The private helpers of contracts/lineproof-queue/src/lib.rs, and its read-only entry points.
use line_proof.Base.{ℕ, ◌-◌, not, Option, none, some, ◌==◌, if◌then◌else◌, unwrap_or}
use line_proof.Soroban.Program.{
  Env, Program, ◌>>=◌, ◌>>◌, returns, get, set, expect, panic_if, extend_ttl, publish, require_auth,
}
use line_proof.Queue.Types.{
  QueueConfig, Position, Kind, position_event, config_key, next_id_key, active_key, idx_key,
  pos_key, schema, ttl_threshold, ttl_extend_to,
}

-- `emit`
abbrev pub emit : Kind → ℕ → ℕ → ℕ → Program schema (Unit {0})
emit kind position_id identity timestamp =
    publish (position_event kind position_id identity timestamp)

-- `QueueImpl::require_admin`
abbrev pub require_admin : Env → QueueConfig → ℕ → Program schema (Unit {0})
require_admin env config admin = do
  panic_if (not (config.admin == admin)) "not_admin"
  require_auth env admin

abbrev pub get_config_internal : Program schema QueueConfig
get_config_internal = do
  stored ← get config_key
  config ← expect stored "queue not initialized"
  extend_ttl config_key ttl_threshold ttl_extend_to
  returns config

-- The two calls by which every handler stores the configuration.
abbrev pub store_config : QueueConfig → Program schema (Unit {0})
store_config config = do set config_key config; extend_ttl config_key ttl_threshold ttl_extend_to

-- Likewise for a position.
abbrev pub store_position : ℕ → Position → Program schema (Unit {0})
store_position id position = do
  set (pos_key id) position
  extend_ttl (pos_key id) ttl_threshold ttl_extend_to

abbrev pub load_position : ℕ → Program schema Position
load_position id = do
  stored ← get (pos_key id)
  position ← expect stored "position not found"
  extend_ttl (pos_key id) ttl_threshold ttl_extend_to
  returns position

abbrev touch_position : ℕ → Option Position → Program schema (Option Position)
touch_position id none = returns none
touch_position id (some position) = do
  extend_ttl (pos_key id) ttl_threshold ttl_extend_to
  returns (some position)

abbrev pub get_position : ℕ → Program schema (Option Position)
get_position position_id =
    if position_id == 0
    then returns none
    else get (pos_key position_id) >>= touch_position position_id

abbrev pub get_config : Program schema QueueConfig
get_config = get_config_internal

abbrev pub current_position_index : Program schema ℕ
current_position_index = do idx ← get idx_key; returns (unwrap_or idx 0)

abbrev pub total_enrolled : Program schema ℕ
total_enrolled = do
  stored ← get next_id_key
  let next_id = unwrap_or stored 1
  returns (if next_id == 0 then 0 else next_id - 1)

abbrev pub active_enrolled : Program schema ℕ
active_enrolled = do stored ← get active_key; returns (unwrap_or stored 0)
