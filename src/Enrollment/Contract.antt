-- ===== src/Enrollment/Contract.antt =====
-- The entry points of contracts/lineproof-enrollment/src/lib.rs that change state.
use line_proof.Base.{
  ℕ, zero, suc, ◌+◌, ◌-◌, not, Bool, true, false, Option, none, some, List, [], ◌∷◌, ◌++◌, ltb,
  if◌then◌else◌, unwrap_or, length, min,
}
use line_proof.Soroban.Program.{
  Env, Program, ◌>>=◌, ◌>>◌, returns, faults, unwrapped_none, get, has, set, expect, panic,
  panic_if, extend_ttl, publish, require_auth, checked,
}
use line_proof.Enrollment.Types.{
  EnrollmentProof, EnrollmentRecord, DuplicateBehavior, reject, grant_waiting_list,
  override_expired, Kind, duplicate_behavior_changed, dup_behavior_key, record_key, count_key,
  waitlist_key, schema, ttl_threshold, ttl_extend_to, zero_hash,
}
use line_proof.Enrollment.Storage.{
  emit, is_enrolled_internal, load_record, store_record, increment_count, is_on_waitlist,
  compute_proof_hash, is_behavior_supported, get_waitlist,
}

-- A record and a proof as `enroll` and `promote_from_waitlist` build them.
abbrev pub new_record : Env → ℕ → ℕ → ℕ → Option ℕ → EnrollmentRecord
new_record env identity queue_id duplicate_count expires_at = record {
  identity = identity;
  queue_id = queue_id;
  enrolled_at = env.timestamp;
  proof_hash = compute_proof_hash env identity queue_id env.timestamp;
  duplicate_count = duplicate_count;
  finalized = false;
  expires_at = expires_at;
  cancelled = false;
}

abbrev pub proof_of : EnrollmentRecord → EnrollmentProof
proof_of entry = record {
  queue_id = entry.queue_id;
  identity = entry.identity;
  enrolled_at = entry.enrolled_at;
  proof_hash = entry.proof_hash;
  expires_at = entry.expires_at;
}

-- `DuplicateBehavior::GrantWaitingList`
abbrev pub join_waitlist : Env → ℕ → ℕ → Program schema EnrollmentProof
join_waitlist env caller queue_id = do
  waiting ← is_on_waitlist caller queue_id
  panic_if waiting "already waitlisted"
  stored ← get (waitlist_key queue_id)
  set (waitlist_key queue_id) (unwrap_or stored [] ++ caller ∷ [])
  extend_ttl (waitlist_key queue_id) ttl_threshold ttl_extend_to
  emit Kind.waitlist_added queue_id caller env.timestamp zero_hash
  returns (record {
    queue_id = queue_id;
    identity = caller;
    enrolled_at = env.timestamp;
    proof_hash = zero_hash;
    expires_at = none;
  })

-- `now > exp`, if there is an expiry.
abbrev pub is_expired : ℕ → Option ℕ → Bool
is_expired now none = false
is_expired now (some expiry) = ltb expiry now

-- `DuplicateBehavior::OverrideExpired`: its check, and the duplicates that the new record counts.
abbrev pub override_check : Env → ℕ → ℕ → Program schema ℕ
override_check env caller queue_id = do
  existing ← load_record caller queue_id
  panic_if (not (is_expired env.timestamp existing.expires_at)) "duplicate enrollment"
  checked 32 (existing.duplicate_count + 1)

abbrev pub override_record : Env → ℕ → ℕ → Option ℕ → Program schema EnrollmentProof
override_record env caller queue_id expires_at = do
  duplicate_count ← override_check env caller queue_id
  let entry = new_record env caller queue_id duplicate_count expires_at
  store_record caller queue_id entry
  emit Kind.enrolled queue_id caller entry.enrolled_at entry.proof_hash
  returns (proof_of entry)

-- The `match` on the duplicate behaviour, for a caller who is enrolled.
abbrev pub enroll_again :
    DuplicateBehavior → Env → ℕ → ℕ → Option ℕ → Program schema EnrollmentProof
enroll_again reject env caller queue_id expires_at = panic "duplicate enrollment"
enroll_again grant_waiting_list env caller queue_id expires_at = join_waitlist env caller queue_id
enroll_again override_expired env caller queue_id expires_at =
    override_record env caller queue_id expires_at

-- The duplicates counted so far and this one, where a cancelled record is stored.
abbrev pub prior_count : ℕ → ℕ → Program schema ℕ
prior_count caller queue_id = do
  present ← has (record_key queue_id caller)
  if not present
      then returns 0
      else do existing ← load_record caller queue_id; checked 32 (existing.duplicate_count + 1)

-- What follows for a caller who is not enrolled.
abbrev pub enroll_first : Env → ℕ → ℕ → Option ℕ → Program schema EnrollmentProof
enroll_first env caller queue_id expires_at = do
  duplicate_count ← prior_count caller queue_id
  let entry = new_record env caller queue_id duplicate_count expires_at
  store_record caller queue_id entry
  increment_count queue_id
  emit Kind.enrolled queue_id caller entry.enrolled_at entry.proof_hash
  returns (proof_of entry)

unfoldable pub enroll : Env → ℕ → ℕ → Option ℕ → Program schema EnrollmentProof
enroll env caller queue_id expires_at = do
  require_auth env caller
  is_enrolled ← is_enrolled_internal caller queue_id
  if not is_enrolled then enroll_first env caller queue_id expires_at else do
    behavior ← get dup_behavior_key
    enroll_again (unwrap_or behavior reject) env caller queue_id expires_at

-- The count is decremented where it is positive.
abbrev pub decrement_count : ℕ → Program schema (Unit {0})
decrement_count queue_id = do
  stored ← get (count_key queue_id)
  if not (ltb 0 (unwrap_or stored 0)) then returns tt else do
    set (count_key queue_id) (unwrap_or stored 0 - 1)
    extend_ttl (count_key queue_id) ttl_threshold ttl_extend_to

unfoldable pub cancel : Env → ℕ → ℕ → Program schema (Unit {0})
cancel env caller queue_id = do
  require_auth env caller
  stored ← get (record_key queue_id caller)
  entry ← expect stored "not enrolled"
  panic_if entry.cancelled "not enrolled"
  store_record caller queue_id (record entry { cancelled = true })
  decrement_count queue_id
  emit Kind.cancelled queue_id caller env.timestamp entry.proof_hash

unfoldable pub set_duplicate_behavior : Env → ℕ → DuplicateBehavior → Program schema (Unit {0})
set_duplicate_behavior env admin behavior = do
  require_auth env admin
  panic_if (not (is_behavior_supported behavior)) "behavior_not_supported"
  set dup_behavior_key behavior
  extend_ttl dup_behavior_key ttl_threshold ttl_extend_to
  extend_ttl dup_behavior_key ttl_threshold ttl_extend_to
  publish (duplicate_behavior_changed behavior)

unfoldable pub finalize_enrollment : Env → ℕ → ℕ → ℕ → Program schema (Unit {0})
finalize_enrollment env admin identity queue_id = do
  require_auth env admin
  entry ← load_record identity queue_id
  panic_if entry.cancelled "not enrolled"
  panic_if entry.finalized "already finalized"
  store_record identity queue_id (record entry { finalized = true })
  emit Kind.finalized queue_id identity entry.enrolled_at entry.proof_hash

-- One round of the loop of `promote_from_waitlist`.
abbrev pub promote : Env → ℕ → ℕ → Program schema (Unit {0})
promote env queue_id identity = do
  let entry = new_record env identity queue_id 0 none
  store_record identity queue_id entry
  increment_count queue_id
  emit Kind.enrolled queue_id identity entry.enrolled_at entry.proof_hash

-- `for _ in 0..to_promote`: the first of the waitlist each time, and what is left of the list.
abbrev pub promote_each : ℕ → Env → ℕ → List ℕ → Program schema (List ℕ)
promote_each zero env queue_id waitlist = returns waitlist
promote_each (suc rounds) env queue_id [] = faults unwrapped_none
promote_each (suc rounds) env queue_id (identity ∷ waitlist) = do
  promote env queue_id identity
  promote_each rounds env queue_id waitlist

unfoldable pub promote_from_waitlist : Env → ℕ → ℕ → ℕ → Program schema (Unit {0})
promote_from_waitlist env admin queue_id count = do
  require_auth env admin
  waitlist ← get_waitlist queue_id
  left ← promote_each (min count (length waitlist)) env queue_id waitlist
  set (waitlist_key queue_id) left
  extend_ttl (waitlist_key queue_id) ttl_threshold ttl_extend_to
