-- ===== src/Enrollment/Storage.antt =====
-- The private helpers of contracts/lineproof-enrollment/src/lib.rs, and its read-only entry points.
use line_proof.Base.{
  ℕ, ◌+◌, not, Bool, true, false, Option, none, some, List, [], ◌∷◌, ◌==◌, if◌then◌else◌, unwrap_or,
  contains,
}
use line_proof.Soroban.Program.{
  Env, Program, ◌>>=◌, ◌>>◌, returns, get, has, set, unwrap, expect, extend_ttl, publish, checked,
}
use line_proof.Enrollment.Types.{
  EnrollmentRecord, DuplicateBehavior, reject, grant_waiting_list, override_expired, Kind,
  enrollment_event, record_key, count_key, waitlist_key, schema, ttl_threshold, ttl_extend_to,
}

-- `emit`
abbrev pub emit : Kind → ℕ → ℕ → ℕ → ℕ → Program schema (Unit {0})
emit kind queue_id identity timestamp hash =
    publish (enrollment_event kind queue_id identity timestamp hash)

abbrev pub is_live : Option EnrollmentRecord → Bool
is_live none = false
is_live (some found) = not found.cancelled

abbrev pub is_enrolled_internal : ℕ → ℕ → Program schema Bool
is_enrolled_internal identity queue_id = do
  stored ← get (record_key queue_id identity)
  returns (is_live stored)

abbrev pub load_record : ℕ → ℕ → Program schema EnrollmentRecord
load_record identity queue_id = do
  stored ← get (record_key queue_id identity)
  found ← expect stored "record missing"
  extend_ttl (record_key queue_id identity) ttl_threshold ttl_extend_to
  returns found

-- The two calls by which every handler stores a record.
abbrev pub store_record : ℕ → ℕ → EnrollmentRecord → Program schema (Unit {0})
store_record identity queue_id entry = do
  set (record_key queue_id identity) entry
  extend_ttl (record_key queue_id identity) ttl_threshold ttl_extend_to

-- The increment of the enrollment count in `enroll` and `promote_from_waitlist`.
abbrev pub increment_count : ℕ → Program schema (Unit {0})
increment_count queue_id = do
  stored ← get (count_key queue_id)
  count ← checked 32 (unwrap_or stored 0 + 1)
  set (count_key queue_id) count
  extend_ttl (count_key queue_id) ttl_threshold ttl_extend_to

abbrev pub is_on_waitlist : ℕ → ℕ → Program schema Bool
is_on_waitlist identity queue_id = do
  present ← has (waitlist_key queue_id)
  if not present then returns false else do
    stored ← get (waitlist_key queue_id)
    waitlist ← unwrap stored
    returns (contains identity waitlist)

-- `compute_proof_hash`
abbrev pub compute_proof_hash : Env → ℕ → ℕ → ℕ → ℕ
compute_proof_hash env identity queue_id enrolled_at = env.sha256_xdr identity queue_id enrolled_at

unfoldable pub is_enrolled : ℕ → ℕ → Program schema Bool
is_enrolled identity queue_id = is_enrolled_internal identity queue_id

unfoldable pub enrollment_record : ℕ → ℕ → Program schema (Option EnrollmentRecord)
enrollment_record identity queue_id = do
  present ← has (record_key queue_id identity)
  if not present
      then returns none
      else do found ← load_record identity queue_id; returns (some found)

unfoldable pub enrollment_count : ℕ → Program schema ℕ
enrollment_count queue_id = do stored ← get (count_key queue_id); returns (unwrap_or stored 0)

abbrev pub is_behavior_supported : DuplicateBehavior → Bool
is_behavior_supported reject = true
is_behavior_supported grant_waiting_list = true
is_behavior_supported override_expired = true

abbrev pub get_waitlist : ℕ → Program schema (List ℕ)
get_waitlist queue_id = do stored ← get (waitlist_key queue_id); returns (unwrap_or stored [])

-- `iter().position(|x| x == identity)`
abbrev pub position_from : ℕ → ℕ → List ℕ → Option ℕ
position_from i identity [] = none
position_from i identity (x ∷ xs) =
    let rest = position_from (i + 1) identity xs in if x == identity then some i else rest

unfoldable pub waitlist_position : ℕ → ℕ → Program schema (Option ℕ)
waitlist_position identity queue_id = do
  waitlist ← get_waitlist queue_id
  returns (position_from 0 identity waitlist)
