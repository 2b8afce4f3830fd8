-- ===== src/Enrollment/Settling.antt =====
-- Cancelling and finalizing an enrollment: what each call does, and exactly when it returns.
use line_proof.Base.{
  ℕ, ◌-◌, ◌≡◌, ◌↔◌, sym, ap, ◌∙◌, some, true, false, [], ◌∷◌, ◌++◌, arith, ltb, if◌then◌else◌,
}
use line_proof.Soroban.Schema.{Observed}
use line_proof.Soroban.Program.{Env, Program, ◌>>◌}
use line_proof.Soroban.Exec.{ok, exec, exec-bind, and_then}
use line_proof.Enrollment.Types.{
  EnrollmentRecord, Kind, enrollment_event, count_key, schema, assign,
}
use line_proof.Enrollment.Storage.{emit, store_record}
use line_proof.Enrollment.Contract.{decrement_count, cancel, finalize_enrollment}
use line_proof.Enrollment.Effects.{entry_of, count_of, rerecorded}

-- The count after one enrollment less.
abbrev pub lowered : ℕ → Observed schema → Observed schema
lowered queue_id s =
    if ltb 0 (count_of s queue_id)
    then record s { slots = assign (count_key queue_id) (some (count_of s queue_id - 1)) s.slots }
    else s

abbrev pub noted : Kind → ℕ → ℕ → ℕ → ℕ → Observed schema → Observed schema
noted kind queue_id identity timestamp hash s = record s {
  log = s.log ++ enrollment_event kind queue_id identity timestamp hash ∷ [];
}

abbrev pub withdrawn : Env → ℕ → ℕ → EnrollmentRecord → Observed schema → Observed schema
withdrawn env queue_id caller entry s =
    noted Kind.cancelled queue_id caller env.timestamp entry.proof_hash
      (lowered queue_id (rerecorded queue_id caller (record entry { cancelled = true }) s))

abbrev pub settled : ℕ → ℕ → EnrollmentRecord → Observed schema → Observed schema
settled queue_id identity entry s =
    noted Kind.finalized queue_id identity entry.enrolled_at entry.proof_hash
      (rerecorded queue_id identity (record entry { finalized = true }) s)

store_record-runs :
    (identity queue_id : ℕ) (entry : EnrollmentRecord) (s : Observed schema)
    → exec (store_record identity queue_id entry) s ≡ ok tt (rerecorded queue_id identity entry s)
store_record-runs identity queue_id entry s = ground arith

decrement_count-runs :
    (queue_id : ℕ) (s : Observed schema)
    → exec (decrement_count queue_id) s ≡ ok tt (lowered queue_id s)
decrement_count-runs queue_id s = ground arith

-- What follows the guards of `cancel`.
withdraw : Env → ℕ → ℕ → EnrollmentRecord → Program schema (Unit {0})
withdraw env caller queue_id entry =
    store_record caller queue_id (record entry { cancelled = true })
    >> (decrement_count queue_id
        >> emit Kind.cancelled queue_id caller env.timestamp entry.proof_hash)

withdraw-runs :
    (env : Env) (caller queue_id : ℕ) (entry : EnrollmentRecord) (s : Observed schema)
    → exec (withdraw env caller queue_id entry) s ≡ ok tt (withdrawn env queue_id caller entry s)
unfolding withdraw
withdraw-runs env caller queue_id entry s =
    let report = emit Kind.cancelled queue_id caller env.timestamp entry.proof_hash in
    let t = rerecorded queue_id caller (record entry { cancelled = true }) s in
    exec-bind (store_record caller queue_id (record entry { cancelled = true }))
      (λ _. decrement_count queue_id >> report) s
    ∙ ap (λ r. and_then r (λ _ u. exec (decrement_count queue_id >> report) u))
        (store_record-runs caller queue_id (record entry { cancelled = true }) s)
    ∙ exec-bind (decrement_count queue_id) (λ _. report) t
    ∙ ap (λ r. and_then r (λ _ u. exec report u)) (decrement_count-runs queue_id t)

cancel_guards :
    (env : Env) (caller queue_id : ℕ) (s s' : Observed schema)
    → exec (cancel env caller queue_id) s ≡ ok tt s'
    → (entry : EnrollmentRecord) × (env.has_auth caller ≡ true)
      × (entry_of s queue_id caller ≡ some entry)
      × (entry.cancelled ≡ false)
      × (exec (withdraw env caller queue_id entry) s ≡ ok tt s')
unfolding cancel withdraw
cancel_guards env caller queue_id s s' h = ground arith

pub cancel-ok :
    (env : Env) (caller queue_id : ℕ) (s s' : Observed schema)
    → exec (cancel env caller queue_id) s ≡ ok tt s'
    → (entry : EnrollmentRecord) × (env.has_auth caller ≡ true)
      × (entry_of s queue_id caller ≡ some entry)
      × (entry.cancelled ≡ false)
      × (s' ≡ withdrawn env queue_id caller entry s)
cancel-ok env caller queue_id s s' h =
    let (entry, signed, at, live, ran) = cancel_guards env caller queue_id s s' h in
    (entry, signed, at, live, cc (withdraw-runs env caller queue_id entry s))

cancel_passes :
    (env : Env) (caller queue_id : ℕ) (entry : EnrollmentRecord) (s : Observed schema)
    → env.has_auth caller ≡ true
    → entry_of s queue_id caller ≡ some entry
    → entry.cancelled ≡ false
    → exec (cancel env caller queue_id) s ≡ exec (withdraw env caller queue_id entry) s
unfolding cancel withdraw
cancel_passes env caller queue_id entry s signed at live = ground arith

-- `cancel` returns exactly if the caller has signed and has a record for the queue that is not
-- cancelled; then only the mark of cancellation is set on that record, the count of the queue goes
-- down by one, if it is positive, and one event with the hash of the proof is published.
pub cancel-exact :
    (env : Env) (caller queue_id : ℕ) (s s' : Observed schema)
    → (exec (cancel env caller queue_id) s ≡ ok tt s') ↔ (
        (entry : EnrollmentRecord) × (env.has_auth caller ≡ true)
        × (entry_of s queue_id caller ≡ some entry)
        × (entry.cancelled ≡ false)
        × (s' ≡ withdrawn env queue_id caller entry s))
cancel-exact env caller queue_id s s' = (
  cancel-ok env caller queue_id s s',
  λ (entry, signed, at, live, after).
      cancel_passes env caller queue_id entry s signed at live
      ∙ withdraw-runs env caller queue_id entry s
      ∙ ap (ok tt) (sym after),
)

pub finalize_enrollment-ok :
    (env : Env) (admin identity queue_id : ℕ) (s s' : Observed schema)
    → exec (finalize_enrollment env admin identity queue_id) s ≡ ok tt s'
    → (entry : EnrollmentRecord) × (env.has_auth admin ≡ true)
      × (entry_of s queue_id identity ≡ some entry)
      × (entry.cancelled ≡ false)
      × (entry.finalized ≡ false)
      × (s' ≡ settled queue_id identity entry s)
unfolding finalize_enrollment
finalize_enrollment-ok env admin identity queue_id s s' h = ground arith

finalize_enrollment-runs :
    (env : Env) (admin identity queue_id : ℕ) (s s' : Observed schema)
    → (entry : EnrollmentRecord) × (env.has_auth admin ≡ true)
      × (entry_of s queue_id identity ≡ some entry)
      × (entry.cancelled ≡ false)
      × (entry.finalized ≡ false)
      × (s' ≡ settled queue_id identity entry s)
    → exec (finalize_enrollment env admin identity queue_id) s ≡ ok tt s'
unfolding finalize_enrollment
finalize_enrollment-runs env admin identity queue_id s s' (entry, signed, at, live, new, after) =
    ground arith

-- `finalize_enrollment` returns exactly if the named admin has signed and the identity has a record
-- for the queue that is neither cancelled nor finalized; then only the mark of finalization is set on
-- that record, and one event is published. Whoever signs may be named as admin.
pub finalize_enrollment-exact :
    (env : Env) (admin identity queue_id : ℕ) (s s' : Observed schema)
    → (exec (finalize_enrollment env admin identity queue_id) s ≡ ok tt s') ↔ (
        (entry : EnrollmentRecord) × (env.has_auth admin ≡ true)
        × (entry_of s queue_id identity ≡ some entry)
        × (entry.cancelled ≡ false)
        × (entry.finalized ≡ false)
        × (s' ≡ settled queue_id identity entry s))
finalize_enrollment-exact env admin identity queue_id s s' = (
  finalize_enrollment-ok env admin identity queue_id s s',
  finalize_enrollment-runs env admin identity queue_id s s',
)
