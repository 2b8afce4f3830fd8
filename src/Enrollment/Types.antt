-- ===== src/Enrollment/Types.antt =====
-- The data of contracts/lineproof-enrollment/src/lib.rs: its types, storage keys and events.
-- A BytesN<32> is the number that its bytes spell.
use line_proof.Base.{
  ℕ, ◌≡◌, ◌≢◌, refl, Option, Bool, List, arith, ◌==◌, ◌&&◌, if◌then◌else◌, ℕ_discrete,
}
use line_proof.Soroban.Schema.{Schema}

abbrev pub ttl_threshold : ℕ
ttl_threshold = 10_000

abbrev pub ttl_extend_to : ℕ
ttl_extend_to = 6_307_200

-- `BytesN::from_array(&env, &[0u8; 32])`
abbrev pub zero_hash : ℕ
zero_hash = 0

pub record EnrollmentProof : Type 0 where
  pub queue_id : ℕ
  pub identity : ℕ
  pub enrolled_at : ℕ
  pub proof_hash : ℕ
  pub expires_at : Option ℕ

pub data DuplicateBehavior : Type 0 where
  reject grant_waiting_list override_expired : DuplicateBehavior

pub record EnrollmentRecord : Type 0 where
  pub identity : ℕ
  pub queue_id : ℕ
  pub enrolled_at : ℕ
  pub proof_hash : ℕ
  pub duplicate_count : ℕ
  pub finalized : Bool
  pub expires_at : Option ℕ
  pub cancelled : Bool

pub data Kind : Type 0 where
  enrolled waitlist_added cancelled finalized : Kind

-- `enrollment_event kind queue_id identity timestamp hash` is what `emit` publishes.
pub data Event : Type 0 where
  enrollment_event : Kind → ℕ → ℕ → ℕ → ℕ → Event
  duplicate_behavior_changed : DuplicateBehavior → Event

-- `record_key queue_id identity`, `count_key queue_id` and `waitlist_key queue_id`.
pub data Key : Type 0 where
  dup_behavior_key : Key
  record_key : ℕ → ℕ → Key
  count_key waitlist_key : ℕ → Key

abbrev pub Value : Key → Type 0
Value dup_behavior_key = DuplicateBehavior
Value (record_key queue_id identity) = EnrollmentRecord
Value (count_key queue_id) = ℕ
Value (waitlist_key queue_id) = List ℕ

abbrev pub assign :
    (k : Key) → Option (Value k) → ((j : Key) → Option (Value j)) → (j : Key) → Option (Value j)
assign dup_behavior_key o m dup_behavior_key = o
assign dup_behavior_key o m j = m j
assign (record_key q a) o m (record_key r b) = if q == r && a == b then o else m (record_key r b)
assign (record_key q a) o m j = m j
assign (count_key q) o m (count_key r) = if q == r then o else m (count_key r)
assign (count_key q) o m j = m j
assign (waitlist_key q) o m (waitlist_key r) = if q == r then o else m (waitlist_key r)
assign (waitlist_key q) o m j = m j

pub Key-discrete : Discrete Key
Key-discrete = hlevel ℕ_discrete

pub assign_self :
    (k : Key) (o : Option (Value k)) (m : (j : Key) → Option (Value j)) → assign k o m k ≡ o
assign_self dup_behavior_key o m = refl
assign_self (record_key q a) o m = ground arith
assign_self (count_key q) o m = ground arith
assign_self (waitlist_key q) o m = ground arith

pub assign_ne :
    (k j : Key) (o : Option (Value k)) (m : (j : Key) → Option (Value j))
    → k ≢ j
    → assign k o m j ≡ m j
assign_ne dup_behavior_key dup_behavior_key o m n = absurd (n refl)
assign_ne (record_key q a) (record_key r b) o m n = ground arith
assign_ne (count_key q) (count_key r) o m n = ground arith
assign_ne (waitlist_key q) (waitlist_key r) o m n = ground arith
assign_ne _ _ o m n = refl

abbrev pub schema : Schema
schema = record {
  Key = Key;
  Value = Value;
  Event = Event;
  dec_key = Key-discrete;
  assign = assign;
  assign_self = assign_self;
  assign_ne = assign_ne;
}
