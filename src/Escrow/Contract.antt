-- ===== src/Escrow/Contract.antt =====
-- The entry points of contracts/lineproof-escrow/src/lib.rs. No entry point moves an asset: the
-- contract keeps the records and the running totals.
use line_proof.Base.{
  ℕ, ◌+◌, ◌-◌, ◌*◌, ◌^◌, not, ◌||◌, Bool, Option, none, some, ◌==◌, ltb, if◌then◌else◌, unwrap_or,
}
use line_proof.Int.{ℤ, pos, negsuc, ◌+ℤ◌, ◌-ℤ◌, ltb_ℤ, leb_ℤ}
use line_proof.Soroban.Program.{
  Env, Program, ◌>>=◌, ◌>>◌, returns, faults, overflowed, get, has, set, expect, panic_if,
  extend_ttl, publish, require_auth, checked,
}
use line_proof.Escrow.Types.{
  EscrowStatus, EscrowRecord, EscrowConfig, Kind, escrow_event, record_key, config_key, total_key,
  schema, ttl_threshold, ttl_extend_to, max_i128, is_active,
}

-- `emit`
abbrev pub emit : Kind → ℕ → ℕ → ℤ → Program schema (Unit {0})
emit kind queue_id identity amount = publish (escrow_event kind queue_id identity amount)

-- Checked arithmetic of i128: the exact result, if it is in range.
unfoldable pub in_i128 : ℤ → Bool
in_i128 a = not (ltb_ℤ max_i128 a || ltb_ℤ a (negsuc (2 ^ 127 - 1)))

abbrev pub checked_i128 : ℤ → Program schema ℤ
checked_i128 a = if in_i128 a then returns a else faults overflowed

abbrev pub load_record : ℕ → ℕ → Program schema EscrowRecord
load_record identity queue_id = do
  stored ← get (record_key queue_id identity)
  found ← expect stored "escrow record not found"
  extend_ttl (record_key queue_id identity) ttl_threshold ttl_extend_to
  returns found

abbrev pub store_record : ℕ → ℕ → EscrowRecord → Program schema (Unit {0})
store_record identity queue_id entry = do
  set (record_key queue_id identity) entry
  extend_ttl (record_key queue_id identity) ttl_threshold ttl_extend_to

abbrev pub store_total : ℕ → ℤ → Program schema (Unit {0})
store_total queue_id total = do
  set (total_key queue_id) total
  extend_ttl (total_key queue_id) ttl_threshold ttl_extend_to

abbrev pub increment_total : ℕ → ℤ → Program schema (Unit {0})
increment_total queue_id amount = do
  current ← get (total_key queue_id)
  total ← checked_i128 (unwrap_or current (pos 0) +ℤ amount)
  store_total queue_id total

-- The checks of `deposit`, and the configuration that it reads.
abbrev pub admission : Env → ℕ → ℕ → ℤ → Program schema EscrowConfig
admission env caller queue_id amount = do
  require_auth env caller
  panic_if (leb_ℤ amount (pos 0)) "amount must be positive"
  present ← has (record_key queue_id caller)
  panic_if present "existing escrow record"
  stored ← get (config_key queue_id)
  config ← expect stored "escrow_not_configured"
  panic_if (ltb_ℤ amount config.min_deposit || ltb_ℤ config.max_deposit amount)
      "amount outside configured bounds"
  returns config

-- `now + (config.hold_period_days as u64) * 86400`
abbrev pub expiry : Env → EscrowConfig → Program schema ℕ
expiry env config = do
  hold ← checked 64 (config.hold_period_days * 86400)
  checked 64 (env.timestamp + hold)

-- The record of a new deposit.
abbrev pub held_record : Env → ℕ → ℕ → ℤ → ℕ → ℕ → EscrowRecord
held_record env caller queue_id amount asset expires_at = record {
  queue_id = queue_id;
  identity = caller;
  amount = amount;
  asset = asset;
  status = EscrowStatus.active;
  created_at = env.timestamp;
  expires_at = expires_at;
  released_at = none;
}

unfoldable pub deposit : Env → ℕ → ℕ → ℤ → ℕ → Program schema (Unit {0})
deposit env caller queue_id amount asset = do
  config ← admission env caller queue_id amount
  expires_at ← expiry env config
  store_record caller queue_id (held_record env caller queue_id amount asset expires_at)
  increment_total queue_id amount
  emit Kind.deposited queue_id caller amount

abbrev pub decrement_total : ℕ → ℤ → Program schema (Unit {0})
decrement_total queue_id amount = do
  current ← get (total_key queue_id)
  total ← checked_i128 (unwrap_or current (pos 0) -ℤ amount)
  store_total queue_id total

-- What `release`, `refund` and `expire` do to an active record that they have loaded.
abbrev pub settle : Env → ℕ → ℕ → EscrowRecord → EscrowStatus → Kind → Program schema (Unit {0})
settle env identity queue_id entry status kind = do
  panic_if (not (is_active entry.status)) "escrow not active"
  store_record identity queue_id
      (record entry { status = status; released_at = some env.timestamp })
  decrement_total queue_id entry.amount
  emit kind queue_id identity entry.amount

unfoldable pub release : Env → ℕ → ℕ → ℕ → Program schema (Unit {0})
release env admin identity queue_id = do
  require_auth env admin
  entry ← load_record identity queue_id
  settle env identity queue_id entry EscrowStatus.released Kind.released

unfoldable pub refund : Env → ℕ → ℕ → ℕ → Program schema (Unit {0})
refund env admin identity queue_id = do
  require_auth env admin
  entry ← load_record identity queue_id
  settle env identity queue_id entry EscrowStatus.refunded Kind.refunded

unfoldable pub expire : Env → ℕ → ℕ → Program schema (Unit {0})
expire env identity queue_id = do
  entry ← load_record identity queue_id
  panic_if (ltb env.timestamp entry.expires_at) "not expired"
  settle env identity queue_id entry EscrowStatus.expired Kind.expired

unfoldable pub get_record : ℕ → ℕ → Program schema (Option EscrowRecord)
get_record identity queue_id = do
  present ← has (record_key queue_id identity)
  if not present
      then returns none
      else do entry ← load_record identity queue_id; returns (some entry)

unfoldable pub get_config : Env → ℕ → Program schema EscrowConfig
get_config env queue_id = do
  stored ← get (config_key queue_id)
  returns (
      unwrap_or stored (record {
        queue_id = queue_id;
        min_deposit = pos 0;
        max_deposit = max_i128;
        hold_period_days = 30;
        admin = env.current_contract_address;
      }))

unfoldable pub set_config : Env → ℕ → EscrowConfig → Program schema (Unit {0})
set_config env admin config = do
  require_auth env admin
  panic_if (ltb_ℤ config.max_deposit config.min_deposit) "min_deposit_exceeds_max"
  panic_if (config.hold_period_days == 0) "hold_period_must_be_positive"
  set (config_key config.queue_id) config
  extend_ttl (config_key config.queue_id) ttl_threshold ttl_extend_to

unfoldable pub get_total_held : ℕ → Program schema ℤ
get_total_held queue_id = do stored ← get (total_key queue_id); returns (unwrap_or stored (pos 0))
