-- ===== src/Identity/Types.antt =====
-- The data of contracts/lineproof-identity/src/lib.rs: its types, storage keys and events.
use line_proof.Base.{
  ℕ, ◌≡◌, ◌≢◌, refl, Option, Bool, true, false, List, arith, ◌==◌, ◌&&◌, if◌then◌else◌, ℕ_discrete,
}
use line_proof.Soroban.Schema.{Schema}

abbrev pub ttl_threshold : ℕ
ttl_threshold = 10_000

abbrev pub ttl_extend_to : ℕ
ttl_extend_to = 6_307_200

abbrev pub max_queues_per_identity : ℕ
max_queues_per_identity = 100

pub data BindingStatus : Type 0 where
  unbound bound revoked : BindingStatus

pub record IdentityRecord : Type 0 where
  pub identity : ℕ
  pub bound_at : ℕ
  pub queues : List ℕ
  pub status : BindingStatus

pub record TransferAttempt : Type 0 where
  pub from : ℕ
  pub to : ℕ
  pub timestamp : ℕ
  pub reverted : Bool

pub data Kind : Type 0 where
  bound unbound transfer_reverted revoked : Kind

-- `identity_event kind queue_id identity timestamp` is what `emit` publishes.
pub data Event : Type 0 where
  identity_event : Kind → ℕ → ℕ → ℕ → Event

-- `record_key identity`, and `attempt_key from to queue_id`.
pub data Key : Type 0 where
  admin_key transfer_allow_key : Key
  record_key : ℕ → Key
  attempt_key : ℕ → ℕ → ℕ → Key

abbrev pub Value : Key → Type 0
Value admin_key = ℕ
Value transfer_allow_key = Bool
Value (record_key identity) = IdentityRecord
Value (attempt_key from to queue_id) = TransferAttempt

abbrev pub assign :
    (k : Key) → Option (Value k) → ((j : Key) → Option (Value j)) → (j : Key) → Option (Value j)
assign admin_key o m admin_key = o
assign admin_key o m j = m j
assign transfer_allow_key o m transfer_allow_key = o
assign transfer_allow_key o m j = m j
assign (record_key i) o m (record_key j) = if i == j then o else m (record_key j)
assign (record_key i) o m j = m j
assign (attempt_key a b q) o m (attempt_key c d r) =
    if a == c && b == d && q == r then o else m (attempt_key c d r)
assign (attempt_key a b q) o m j = m j

pub Key-discrete : Discrete Key
Key-discrete = hlevel ℕ_discrete

pub assign_self :
    (k : Key) (o : Option (Value k)) (m : (j : Key) → Option (Value j)) → assign k o m k ≡ o
assign_self admin_key o m = refl
assign_self (record_key i) o m = ground arith
assign_self (attempt_key a b q) o m = ground arith
assign_self _ o m = refl

pub assign_ne :
    (k j : Key) (o : Option (Value k)) (m : (j : Key) → Option (Value j))
    → k ≢ j
    → assign k o m j ≡ m j
assign_ne admin_key admin_key o m n = absurd (n refl)
assign_ne transfer_allow_key transfer_allow_key o m n = absurd (n refl)
assign_ne (record_key i) (record_key j) o m n = ground arith
assign_ne (attempt_key a b q) (attempt_key c d r) o m n = ground arith
assign_ne _ _ o m n = refl

abbrev pub schema : Schema
schema = record {
  Key = Key;
  Value = Value;
  Event = Event;
  dec_key = Key-discrete;
  assign = assign;
  assign_self = assign_self;
  assign_ne = assign_ne;
}

abbrev pub is_revoked : BindingStatus → Bool
is_revoked BindingStatus.revoked = true
is_revoked _ = false
