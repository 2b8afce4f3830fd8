-- ===== src/Identity/Contract.antt =====
-- The entry points of contracts/lineproof-identity/src/lib.rs.
use line_proof.Base.{
  ℕ, not, Bool, true, false, Option, none, some, [], ◌∷◌, ◌++◌, ◌==◌, leb, if◌then◌else◌, unwrap_or,
  length, contains, without,
}
use line_proof.Soroban.Program.{
  Env, Program, ◌>>=◌, ◌>>◌, returns, get, has, set, unwrap, expect, panic_if, extend_ttl, publish,
  require_auth,
}
use line_proof.Identity.Types.{
  BindingStatus, IdentityRecord, Kind, identity_event, admin_key, transfer_allow_key, record_key,
  attempt_key, schema, ttl_threshold, ttl_extend_to, max_queues_per_identity, is_revoked,
}

-- `emit`
abbrev pub emit : Kind → ℕ → ℕ → ℕ → Program schema (Unit {0})
emit kind queue_id identity timestamp = publish (identity_event kind queue_id identity timestamp)

-- The record of an identity that has none.
abbrev pub no_record : ℕ → IdentityRecord
no_record identity = record {
  identity = identity;
  bound_at = 0;
  queues = [];
  status = BindingStatus.unbound;
}

abbrev pub get_record_internal : ℕ → Program schema IdentityRecord
get_record_internal identity = do
  present ← has (record_key identity)
  if not present then returns (no_record identity) else do
    stored ← get (record_key identity)
    found ← unwrap stored
    extend_ttl (record_key identity) ttl_threshold ttl_extend_to
    returns found

abbrev pub store_record : ℕ → IdentityRecord → Program schema (Unit {0})
store_record identity entry = do
  set (record_key identity) entry
  extend_ttl (record_key identity) ttl_threshold ttl_extend_to

unfoldable pub bind : Env → ℕ → ℕ → Program schema (Unit {0})
bind env identity queue_id = do
  require_auth env identity
  entry ← get_record_internal identity
  panic_if (is_revoked entry.status) "identity revoked"
  panic_if (contains queue_id entry.queues) "already_bound"
  panic_if (leb max_queues_per_identity (length entry.queues)) "max_queues_reached"
  store_record identity (record entry {
    queues = entry.queues ++ queue_id ∷ [];
    bound_at = if entry.bound_at == 0 then env.timestamp else entry.bound_at;
    status = BindingStatus.bound;
  })
  emit Kind.bound queue_id identity env.timestamp

unfoldable pub unbind : Env → ℕ → ℕ → Program schema (Unit {0})
unbind env identity queue_id = do
  require_auth env identity
  entry ← get_record_internal identity
  if not (contains queue_id entry.queues) then returns tt else do
    store_record identity (record entry { queues = without queue_id entry.queues })
    emit Kind.unbound queue_id identity env.timestamp

unfoldable pub is_bound : ℕ → ℕ → Program schema Bool
is_bound identity queue_id = do
  entry ← get_record_internal identity
  returns (contains queue_id entry.queues)

unfoldable pub can_transfer : ℕ → ℕ → ℕ → Program schema Bool
can_transfer from to queue_id = if from == to then returns true else do
  entry ← get_record_internal from
  if is_revoked entry.status
      then returns false
      else if not (contains queue_id entry.queues)
      then returns false
      else do allowed ← get transfer_allow_key; returns (unwrap_or allowed false)

abbrev pub get_admin : Program schema (Option ℕ)
get_admin = get admin_key

unfoldable pub set_transfer_allowed : Env → ℕ → Bool → Program schema (Unit {0})
set_transfer_allowed env admin allowed = do
  require_auth env admin
  stored ← get_admin
  stored_admin ← expect stored "not initialized"
  panic_if (not (admin == stored_admin)) "unauthorized"
  set transfer_allow_key allowed
  extend_ttl transfer_allow_key ttl_threshold ttl_extend_to

unfoldable pub record_transfer_attempt : Env → ℕ → ℕ → ℕ → Program schema (Unit {0})
record_transfer_attempt env from to queue_id = do
  set (attempt_key from to queue_id)
      (record { from = from; to = to; timestamp = env.timestamp; reverted = true })
  extend_ttl (attempt_key from to queue_id) ttl_threshold ttl_extend_to
  emit Kind.transfer_reverted queue_id from env.timestamp

unfoldable pub get_record : ℕ → Program schema (Option IdentityRecord)
get_record identity = do
  present ← has (record_key identity)
  if not present
      then returns none
      else do entry ← get_record_internal identity; returns (some entry)

unfoldable pub initialize : Env → ℕ → Program schema (Unit {0})
initialize env admin = do
  require_auth env admin
  present ← has admin_key
  panic_if present "already initialized"
  set admin_key admin
  extend_ttl admin_key ttl_threshold ttl_extend_to

unfoldable pub revoke : Env → ℕ → ℕ → Program schema (Unit {0})
revoke env admin identity = do
  require_auth env admin
  stored ← get admin_key
  stored_admin ← expect stored "not initialized"
  panic_if (not (admin == stored_admin)) "unauthorized"
  entry ← get_record_internal identity
  store_record identity (record entry { status = BindingStatus.revoked })
  emit Kind.revoked (env.symbol "") identity env.timestamp
