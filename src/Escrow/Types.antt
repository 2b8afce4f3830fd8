-- ===== src/Escrow/Types.antt =====
-- The data of contracts/lineproof-escrow/src/lib.rs: its types, storage keys and events.
use line_proof.Base.{
  ℕ, ◌≡◌, ◌≢◌, ◌-◌, ◌^◌, refl, Option, Bool, true, false, arith, ◌==◌, ◌&&◌, if◌then◌else◌,
  ℕ_discrete,
}
use line_proof.Int.{ℤ, pos}
use line_proof.Soroban.Schema.{Schema}

abbrev pub ttl_threshold : ℕ
ttl_threshold = 10_000

abbrev pub ttl_extend_to : ℕ
ttl_extend_to = 6_307_200

-- `i128::MAX`
abbrev pub max_i128 : ℤ
max_i128 = pos (2 ^ 127 - 1)

pub data EscrowStatus : Type 0 where
  active released refunded expired : EscrowStatus

pub record EscrowRecord : Type 0 where
  pub queue_id : ℕ
  pub identity : ℕ
  pub amount : ℤ
  pub asset : ℕ
  pub status : EscrowStatus
  pub created_at : ℕ
  pub expires_at : ℕ
  pub released_at : Option ℕ

pub record EscrowConfig : Type 0 where
  pub queue_id : ℕ
  pub min_deposit : ℤ
  pub max_deposit : ℤ
  pub hold_period_days : ℕ
  pub admin : ℕ

pub data Kind : Type 0 where
  deposited released refunded expired : Kind

-- `escrow_event kind queue_id identity amount` is what `emit` publishes.
pub data Event : Type 0 where
  escrow_event : Kind → ℕ → ℕ → ℤ → Event

-- `record_key queue_id identity`, `config_key queue_id` and `total_key queue_id`.
pub data Key : Type 0 where
  record_key : ℕ → ℕ → Key
  config_key total_key : ℕ → Key

abbrev pub Value : Key → Type 0
Value (record_key queue_id identity) = EscrowRecord
Value (config_key queue_id) = EscrowConfig
Value (total_key queue_id) = ℤ

abbrev pub assign :
    (k : Key) → Option (Value k) → ((j : Key) → Option (Value j)) → (j : Key) → Option (Value j)
assign (record_key q a) o m (record_key r b) = if q == r && a == b then o else m (record_key r b)
assign (record_key q a) o m j = m j
assign (config_key q) o m (config_key r) = if q == r then o else m (config_key r)
assign (config_key q) o m j = m j
assign (total_key q) o m (total_key r) = if q == r then o else m (total_key r)
assign (total_key q) o m j = m j

pub Key-discrete : Discrete Key
Key-discrete = hlevel ℕ_discrete

pub assign_self :
    (k : Key) (o : Option (Value k)) (m : (j : Key) → Option (Value j)) → assign k o m k ≡ o
assign_self (record_key q a) o m = ground arith
assign_self (config_key q) o m = ground arith
assign_self (total_key q) o m = ground arith

pub assign_ne :
    (k j : Key) (o : Option (Value k)) (m : (j : Key) → Option (Value j))
    → k ≢ j
    → assign k o m j ≡ m j
assign_ne (record_key q a) (record_key r b) o m n = ground arith
assign_ne (config_key q) (config_key r) o m n = ground arith
assign_ne (total_key q) (total_key r) o m n = ground arith
assign_ne _ _ o m n = refl

abbrev pub schema : Schema
schema = record {
  Key = Key;
  Value = Value;
  Event = Event;
  dec_key = Key-discrete;
  assign = assign;
  assign_self = assign_self;
  assign_ne = assign_ne;
}

abbrev pub is_active : EscrowStatus → Bool
is_active active = true
is_active _ = false
