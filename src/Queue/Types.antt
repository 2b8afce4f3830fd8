-- ===== src/Queue/Types.antt =====
-- The data of contracts/lineproof-queue/src/lib.rs: its types, storage keys and events.
-- Addresses and symbols are only compared, so they are numbers; a u32 or u64 is a number whose
-- overflow is checked where it is computed.
use line_proof.Base.{
  ℕ, ◌≡◌, ◌≢◌, refl, Option, Bool, true, false, arith, ◌==◌, if◌then◌else◌, ℕ_discrete,
}
use line_proof.Soroban.Schema.{Schema}

pub data AdvancementRule : Type 0 where
  fifo priority_tier verifiable_randomness : AdvancementRule

pub data QueueStatus : Type 0 where
  draft enrollment_open enrollment_closed advancement_active closed : QueueStatus

pub record QueueConfig : Type 0 where
  pub slug : ℕ
  pub name : ℕ
  pub admin : ℕ
  pub max_positions : ℕ
  pub enrollment_opens : ℕ
  pub enrollment_closes : ℕ
  pub status : QueueStatus
  pub version : ℕ
  pub advancement_rule : AdvancementRule

pub data PositionStatus : Type 0 where
  pending advanced expired cancelled : PositionStatus

pub record Position : Type 0 where
  pub position_id : ℕ
  pub enrolled_at : ℕ
  pub identity : ℕ
  pub status : PositionStatus
  pub advanced_at : Option ℕ
  pub priority_weight : Option ℕ

abbrev pub ttl_threshold : ℕ
ttl_threshold = 10_000

abbrev pub ttl_extend_to : ℕ
ttl_extend_to = 6_307_200

abbrev pub current_version : ℕ
current_version = 1

-- The topic that names an event. `Skipped` is published for a cancelled position that `advance`
-- passes over.
pub data Kind : Type 0 where
  initialized enrollment_opened enrollment_closed enrolled cancelled skipped advanced : Kind
  expired queue_closed upgraded migrated : Kind

-- `position_event kind position_id identity timestamp` is what `emit` publishes.
pub data Event : Type 0 where
  position_event : Kind → ℕ → ℕ → ℕ → Event
  ownership_transferred : ℕ → ℕ → Event

-- The symbols under which the contract stores, and `("pos", id)`.
pub data Key : Type 0 where
  config_key next_id_key active_key idx_key version_key pending_key : Key
  pos_key : ℕ → Key

abbrev pub Value : Key → Type 0
Value config_key = QueueConfig
Value next_id_key = ℕ
Value active_key = ℕ
Value idx_key = ℕ
Value version_key = ℕ
Value pending_key = ℕ
Value (pos_key i) = Position

abbrev pub assign :
    (k : Key) → Option (Value k) → ((j : Key) → Option (Value j)) → (j : Key) → Option (Value j)
assign config_key o m config_key = o
assign config_key o m j = m j
assign next_id_key o m next_id_key = o
assign next_id_key o m j = m j
assign active_key o m active_key = o
assign active_key o m j = m j
assign idx_key o m idx_key = o
assign idx_key o m j = m j
assign version_key o m version_key = o
assign version_key o m j = m j
assign pending_key o m pending_key = o
assign pending_key o m j = m j
assign (pos_key i) o m (pos_key j) = if i == j then o else m (pos_key j)
assign (pos_key i) o m j = m j

pub Key-discrete : Discrete Key
Key-discrete = hlevel ℕ_discrete

pub assign_self :
    (k : Key) (o : Option (Value k)) (m : (j : Key) → Option (Value j)) → assign k o m k ≡ o
assign_self config_key o m = refl
assign_self (pos_key i) o m = ground arith
assign_self _ o m = refl

pub assign_ne :
    (k j : Key) (o : Option (Value k)) (m : (j : Key) → Option (Value j))
    → k ≢ j
    → assign k o m j ≡ m j
assign_ne config_key config_key o m n = absurd (n refl)
assign_ne next_id_key next_id_key o m n = absurd (n refl)
assign_ne active_key active_key o m n = absurd (n refl)
assign_ne idx_key idx_key o m n = absurd (n refl)
assign_ne version_key version_key o m n = absurd (n refl)
assign_ne pending_key pending_key o m n = absurd (n refl)
assign_ne (pos_key i) (pos_key j) o m n = ground arith
assign_ne _ _ o m n = refl

abbrev pub schema : Schema
schema = record {
  Key = Key;
  Value = Value;
  Event = Event;
  dec_key = Key-discrete;
  assign = assign;
  assign_self = assign_self;
  assign_ne = assign_ne;
}

-- `matches!` on the queue's status.
abbrev pub is_draft : QueueStatus → Bool
is_draft draft = true
is_draft _ = false

abbrev pub is_enrollment_open : QueueStatus → Bool
is_enrollment_open enrollment_open = true
is_enrollment_open _ = false

abbrev pub is_enrollment_closed : QueueStatus → Bool
is_enrollment_closed enrollment_closed = true
is_enrollment_closed _ = false

abbrev pub is_advancement_active : QueueStatus → Bool
is_advancement_active advancement_active = true
is_advancement_active _ = false

abbrev pub is_closed : QueueStatus → Bool
is_closed closed = true
is_closed _ = false

-- `matches!` on a position's status.
abbrev pub is_pending : PositionStatus → Bool
is_pending pending = true
is_pending _ = false

abbrev pub is_cancelled : PositionStatus → Bool
is_cancelled cancelled = true
is_cancelled _ = false
