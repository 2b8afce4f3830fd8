-- ===== src/Factory/Types.antt =====
-- The data of contracts/lineproof-queue-factory/src/lib.rs: its types, storage keys and events.
use line_proof.Base.{ℕ, ◌≡◌, ◌≢◌, refl, Option, Bool, List, arith, ◌==◌, if◌then◌else◌, ℕ_discrete}
use line_proof.Soroban.Schema.{Schema}

abbrev pub ttl_threshold : ℕ
ttl_threshold = 10_000

abbrev pub ttl_extend_to : ℕ
ttl_extend_to = 6_307_200

pub record QueueMetadata : Type 0 where
  pub slug : ℕ
  pub name : ℕ
  pub owner : ℕ
  pub contract_id : ℕ
  pub version : ℕ
  pub deployed_at : ℕ
  pub active : Bool

pub record FactoryConfig : Type 0 where
  pub admin : ℕ
  pub min_version : ℕ
  pub max_version : ℕ

pub data Kind : Type 0 where
  init deployed registered deactivated reactivated destroyed upgraded : Kind

-- `factory_event kind slug contract_id version` is what `emit` publishes: it drops the timestamp.
pub data Event : Type 0 where
  factory_event : Kind → ℕ → ℕ → ℕ → Event

-- `registry_key slug`, and `approved_key version`.
pub data Key : Type 0 where
  config_key slug_index_key approvals_key : Key
  registry_key approved_key : ℕ → Key

abbrev pub Value : Key → Type 0
Value config_key = FactoryConfig
Value slug_index_key = List ℕ
Value approvals_key = Bool
Value (registry_key slug) = QueueMetadata
Value (approved_key version) = ℕ

abbrev pub assign :
    (k : Key) → Option (Value k) → ((j : Key) → Option (Value j)) → (j : Key) → Option (Value j)
assign config_key o m config_key = o
assign config_key o m j = m j
assign slug_index_key o m slug_index_key = o
assign slug_index_key o m j = m j
assign approvals_key o m approvals_key = o
assign approvals_key o m j = m j
assign (registry_key i) o m (registry_key j) = if i == j then o else m (registry_key j)
assign (registry_key i) o m j = m j
assign (approved_key i) o m (approved_key j) = if i == j then o else m (approved_key j)
assign (approved_key i) o m j = m j

pub Key-discrete : Discrete Key
Key-discrete = hlevel ℕ_discrete

pub assign_self :
    (k : Key) (o : Option (Value k)) (m : (j : Key) → Option (Value j)) → assign k o m k ≡ o
assign_self config_key o m = refl
assign_self (registry_key i) o m = ground arith
assign_self (approved_key i) o m = ground arith
assign_self _ o m = refl

pub assign_ne :
    (k j : Key) (o : Option (Value k)) (m : (j : Key) → Option (Value j))
    → k ≢ j
    → assign k o m j ≡ m j
assign_ne config_key config_key o m n = absurd (n refl)
assign_ne slug_index_key slug_index_key o m n = absurd (n refl)
assign_ne approvals_key approvals_key o m n = absurd (n refl)
assign_ne (registry_key i) (registry_key j) o m n = ground arith
assign_ne (approved_key i) (approved_key j) o m n = ground arith
assign_ne _ _ o m n = refl

abbrev pub schema : Schema
schema = record {
  Key = Key;
  Value = Value;
  Event = Event;
  dec_key = Key-discrete;
  assign = assign;
  assign_self = assign_self;
  assign_ne = assign_ne;
}
