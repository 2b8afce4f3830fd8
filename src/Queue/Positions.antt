-- ===== src/Queue/Positions.antt =====
-- Enrolling, cancelling and expiring positions, contracts/lineproof-queue/src/lib.rs.
use line_proof.Base.{ℕ, ◌+◌, ◌-◌, not, ◌&&◌, none, List, [], ◌∷◌, ◌==◌, leb, unwrap_or}
use line_proof.Soroban.Program.{
  Env, Program, ◌>>=◌, ◌>>◌, returns, get, set, panic_if, extend_ttl, require_auth, checked,
}
use line_proof.Queue.Types.{
  PositionStatus, Kind, next_id_key, active_key, schema, ttl_threshold, ttl_extend_to,
  is_enrollment_open, is_advancement_active, is_closed, is_pending,
}
use line_proof.Queue.Storage.{
  emit, require_admin, get_config_internal, store_position, load_position,
}

unfoldable pub enroll_position : Env → ℕ → Program schema ℕ
enroll_position env identity = do
  require_auth env identity
  config ← get_config_internal
  panic_if (not (is_enrollment_open config.status)) "enrollment is not open"
  stored_id ← get next_id_key
  let next_id = unwrap_or stored_id 1
  stored_active ← get active_key
  let active_count = unwrap_or stored_active 0
  panic_if (leb config.max_positions active_count) "queue is full"
  store_position next_id (record {
    position_id = next_id;
    enrolled_at = env.timestamp;
    identity = identity;
    status = PositionStatus.pending;
    advanced_at = none;
    priority_weight = none;
  })
  following ← checked 32 (next_id + 1)
  set next_id_key following
  extend_ttl next_id_key ttl_threshold ttl_extend_to
  occupied ← checked 32 (active_count + 1)
  set active_key occupied
  extend_ttl active_key ttl_threshold ttl_extend_to
  emit Kind.enrolled next_id identity env.timestamp
  returns next_id

-- `saturating_sub` is the truncated subtraction.
unfoldable pub cancel_position : Env → ℕ → ℕ → Program schema (Unit {0})
cancel_position env identity position_id = do
  require_auth env identity
  position ← load_position position_id
  panic_if (not (position.identity == identity)) "not your position"
  panic_if (not (is_pending position.status)) "only pending positions can be cancelled"
  store_position position_id (record position { status = PositionStatus.cancelled })
  stored ← get active_key
  set active_key (unwrap_or stored 0 - 1)
  extend_ttl active_key ttl_threshold ttl_extend_to
  emit Kind.cancelled position_id identity env.timestamp

-- What `expire_position` and each round of `expire_positions_batch` do to one position.
abbrev pub expire_one : Env → ℕ → ℕ → Program schema (Unit {0})
expire_one env admin position_id = do
  position ← load_position position_id
  panic_if (not (is_pending position.status)) "only pending positions can be expired"
  store_position position_id (record position { status = PositionStatus.expired })
  emit Kind.expired position_id admin env.timestamp

-- The guards that both functions begin with.
abbrev pub require_expiry : Env → ℕ → Program schema (Unit {0})
require_expiry env admin = do
  config ← get_config_internal
  require_admin env config admin
  panic_if (not (is_advancement_active config.status) && not (is_closed config.status))
      "queue must be in advancement or closed state"

unfoldable pub expire_position : Env → ℕ → ℕ → Program schema (Unit {0})
expire_position env admin position_id = do
  require_expiry env admin
  expire_one env admin position_id

abbrev pub expire_each : Env → ℕ → List ℕ → Program schema (Unit {0})
expire_each env admin [] = returns tt
expire_each env admin (position_id ∷ position_ids) = do
  expire_one env admin position_id
  expire_each env admin position_ids

unfoldable pub expire_positions_batch : Env → ℕ → List ℕ → Program schema (Unit {0})
expire_positions_batch env admin position_ids = do
  require_expiry env admin
  expire_each env admin position_ids
