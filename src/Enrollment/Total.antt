-- ===== src/Enrollment/Total.antt =====
-- The ways in which `enroll` returns, and that it returns in no other.
use line_proof.Base.{
  ℕ, ◌+◌, ◌^◌, ◌<◌, ◌≡◌, ◌↔◌, ◌∙◌, ap, refl, Option, none, some, Bool, true, false, not, arith,
  unwrap_or, if◌then◌else◌, contains,
}
use line_proof.Soroban.Schema.{Observed}
use line_proof.Soroban.Program.{Env, ◌>>=◌, ◌>>◌, returns, get}
use line_proof.Soroban.Exec.{ok, exec, exec-bind, and_then}
use line_proof.Enrollment.Types.{
  EnrollmentProof, EnrollmentRecord, reject, Kind, dup_behavior_key, schema, zero_hash,
}
use line_proof.Enrollment.Storage.{is_live, emit, store_record, increment_count}
use line_proof.Enrollment.Contract.{
  new_record, proof_of, is_expired, prior_count, override_check, override_record, enroll_first,
  enroll, join_waitlist, enroll_again,
}
use line_proof.Enrollment.Effects.{
  entry_of, count_of, waitlist_of, duplicates, overridden, enrolled, waitlisted,
}
use line_proof.Enrollment.Entries.{Enrolls, first, waits, overrides, enroll-ok}

prior_count-runs :
    (caller queue_id : ℕ) (s : Observed schema)
    → duplicates (entry_of s queue_id caller) < 2 ^ 32
    → exec (prior_count caller queue_id) s ≡ ok (duplicates (entry_of s queue_id caller)) s
prior_count-runs caller queue_id s fits = ground arith

first_record-runs :
    (entry : EnrollmentRecord) (caller queue_id : ℕ) (s : Observed schema)
    → count_of s queue_id + 1 < 2 ^ 32
    → exec
        (store_record caller queue_id entry
          >> increment_count queue_id
          >> (emit Kind.enrolled queue_id caller entry.enrolled_at entry.proof_hash
              >> returns (proof_of entry)))
        s
      ≡ ok (proof_of entry) (enrolled queue_id caller entry s)
first_record-runs entry caller queue_id s fits = ground arith

override_check-runs :
    (env : Env) (caller queue_id : ℕ) (old : EnrollmentRecord) (s : Observed schema)
    → entry_of s queue_id caller ≡ some old
    → is_expired env.timestamp old.expires_at ≡ true
    → old.duplicate_count + 1 < 2 ^ 32
    → exec (override_check env caller queue_id) s ≡ ok (old.duplicate_count + 1) s
override_check-runs env caller queue_id old s at late fits = ground arith

again_record-runs :
    (entry : EnrollmentRecord) (caller queue_id : ℕ) (s : Observed schema)
    → exec
        (store_record caller queue_id entry
          >> (emit Kind.enrolled queue_id caller entry.enrolled_at entry.proof_hash
              >> returns (proof_of entry)))
        s
      ≡ ok (proof_of entry) (overridden queue_id caller entry s)
again_record-runs entry caller queue_id s = ground arith

-- The proof that a caller on the waitlist is given.
abbrev pub waiting_proof : Env → ℕ → ℕ → EnrollmentProof
waiting_proof env caller queue_id = record {
  queue_id = queue_id;
  identity = caller;
  enrolled_at = env.timestamp;
  proof_hash = zero_hash;
  expires_at = none;
}

join_waitlist-runs :
    (env : Env) (caller queue_id : ℕ) (s : Observed schema)
    → contains caller (waitlist_of s queue_id) ≡ false
    → exec (join_waitlist env caller queue_id) s
      ≡ ok (waiting_proof env caller queue_id) (waitlisted env queue_id caller s)
join_waitlist-runs env caller queue_id s new = ground arith

enroll_first-runs :
    (env : Env) (caller queue_id : ℕ) (expires_at : Option ℕ) (s : Observed schema)
    → duplicates (entry_of s queue_id caller) < 2 ^ 32
    → count_of s queue_id + 1 < 2 ^ 32
    → exec (enroll_first env caller queue_id expires_at) s
      ≡ ok
          (proof_of
            (new_record env caller queue_id (duplicates (entry_of s queue_id caller)) expires_at))
          (enrolled queue_id caller
            (new_record env caller queue_id (duplicates (entry_of s queue_id caller)) expires_at)
            s)
enroll_first-runs env caller queue_id expires_at s fits room =
    let entry = λ (n : ℕ). new_record env caller queue_id n expires_at in
    let finish = λ (n : ℕ).
      store_record caller queue_id (entry n)
      >> increment_count queue_id
      >> (emit Kind.enrolled queue_id caller (entry n).enrolled_at (entry n).proof_hash
          >> returns (proof_of (entry n))) in
    exec-bind (prior_count caller queue_id) finish s
    ∙ ap (λ r. and_then r (λ n t. exec (finish n) t)) (prior_count-runs caller queue_id s fits)
    ∙ first_record-runs (entry (duplicates (entry_of s queue_id caller))) caller queue_id s room

override_record-runs :
    (env : Env) (caller queue_id : ℕ) (expires_at : Option ℕ) (old : EnrollmentRecord)
    (s : Observed schema)
    → entry_of s queue_id caller ≡ some old
    → is_expired env.timestamp old.expires_at ≡ true
    → old.duplicate_count + 1 < 2 ^ 32
    → exec (override_record env caller queue_id expires_at) s
      ≡ ok (proof_of (new_record env caller queue_id (old.duplicate_count + 1) expires_at)) (
          overridden queue_id caller
            (new_record env caller queue_id (old.duplicate_count + 1) expires_at)
            s)
override_record-runs env caller queue_id expires_at old s at late fits =
    let entry = λ (n : ℕ). new_record env caller queue_id n expires_at in
    let finish = λ (n : ℕ).
      store_record caller queue_id (entry n)
      >> (emit Kind.enrolled queue_id caller (entry n).enrolled_at (entry n).proof_hash
          >> returns (proof_of (entry n))) in
    exec-bind (override_check env caller queue_id) finish s
    ∙ ap (λ r. and_then r (λ n t. exec (finish n) t))
        (override_check-runs env caller queue_id old s at late fits)
    ∙ again_record-runs (entry (old.duplicate_count + 1)) caller queue_id s

by_live :
    (b : Bool) (env : Env) (caller queue_id : ℕ) (expires_at : Option ℕ) (s : Observed schema)
    → exec
        (if not b
          then enroll_first env caller queue_id expires_at
          else (get dup_behavior_key >>= λ behavior.
              enroll_again (unwrap_or behavior reject) env caller queue_id expires_at))
        s
      ≡ (if b
          then exec
              (enroll_again
                (unwrap_or (s.slots dup_behavior_key) reject)
                env
                caller
                queue_id
                expires_at)
              s
          else exec (enroll_first env caller queue_id expires_at) s)
by_live true env caller queue_id expires_at s = refl
by_live false env caller queue_id expires_at s = refl

-- Once the caller has signed, `enroll` goes on by whether the caller is enrolled.
enroll_signed :
    (env : Env) (caller queue_id : ℕ) (expires_at : Option ℕ) (s : Observed schema)
    → env.has_auth caller ≡ true
    → exec (enroll env caller queue_id expires_at) s ≡ (
        if is_live (entry_of s queue_id caller)
        then exec
            (enroll_again
              (unwrap_or (s.slots dup_behavior_key) reject)
              env
              caller
              queue_id
              expires_at)
            s
        else exec (enroll_first env caller queue_id expires_at) s)
unfolding enroll
enroll_signed env caller queue_id expires_at s signed =
    rw signed (by_live (is_live (entry_of s queue_id caller)) env caller queue_id expires_at s)

-- If the caller has signed and the count of its duplicates does not overflow, then `enroll` returns
-- in each of the cases that `Enrolls` describes, with the storage described.
pub enroll-runs :
    (env : Env) (caller queue_id : ℕ) (expires_at : Option ℕ) (s s' : Observed schema)
    → env.has_auth caller ≡ true
    → duplicates (entry_of s queue_id caller) < 2 ^ 32
    → Enrolls env caller queue_id expires_at s s'
    → (p : EnrollmentProof) × (exec (enroll env caller queue_id expires_at) s ≡ ok p s')
enroll-runs env caller queue_id expires_at s _ signed fits (first live room) = (
  proof_of (new_record env caller queue_id (duplicates (entry_of s queue_id caller)) expires_at),
  enroll_signed env caller queue_id expires_at s signed
      ∙ rw live (enroll_first-runs env caller queue_id expires_at s fits room),
)
enroll-runs env caller queue_id expires_at s _ signed fits (waits live set new) = (
  waiting_proof env caller queue_id,
  enroll_signed env caller queue_id expires_at s signed
      ∙ rw (live, set) (join_waitlist-runs env caller queue_id s new),
)
enroll-runs env caller queue_id expires_at s _ signed fits (overrides old at live set late) =
    let live' : is_live (entry_of s queue_id caller) ≡ true = ground arith in
    let room : old.duplicate_count + 1 < 2 ^ 32 = ground arith in
    (
      proof_of (new_record env caller queue_id (old.duplicate_count + 1) expires_at),
      enroll_signed env caller queue_id expires_at s signed
          ∙ rw (live', set)
              (override_record-runs env caller queue_id expires_at old s at late room),
    )

-- For a caller whose count of duplicates has room for one more, `enroll` returns exactly if the
-- caller has signed and one of three cases holds, and leaves what the case says: the caller is not
-- enrolled and the count has room, and gets a new, counted record with the duplicates of a cancelled
-- one carried on; or is enrolled, duplicates go to the waitlist, and is not on it, and becomes its
-- last entry; or is enrolled with a record that has expired, duplicates override, and the record is
-- replaced without counting.
pub enroll-exact :
    (env : Env) (caller queue_id : ℕ) (expires_at : Option ℕ) (s s' : Observed schema)
    → duplicates (entry_of s queue_id caller) < 2 ^ 32
    → ((p : EnrollmentProof) × (exec (enroll env caller queue_id expires_at) s ≡ ok p s'))
      ↔ ((env.has_auth caller ≡ true) × Enrolls env caller queue_id expires_at s s')
enroll-exact env caller queue_id expires_at s s' fits = (
  λ (p, ran). enroll-ok env caller queue_id expires_at p s s' ran,
  λ (signed, enrolls). enroll-runs env caller queue_id expires_at s s' signed fits enrolls,
)
