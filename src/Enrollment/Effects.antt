-- ===== src/Enrollment/Effects.antt =====
-- What a returned call on the enrollment contract has checked and done.
use line_proof.Base.{
  ℕ, ◌+◌, ◌^◌, ◌<◌, ◌≡◌, Option, none, some, true, false, ◌∙◌, ap, sym, subst, [], ◌∷◌, ◌++◌, arith,
  unwrap_or, contains, List,
}
use line_proof.Soroban.Schema.{Observed}
use line_proof.Soroban.Program.{Env, ◌>>◌, returns}
use line_proof.Soroban.Exec.{ok, exec, exec-bind_ok}
use line_proof.Enrollment.Types.{
  EnrollmentProof, EnrollmentRecord, Kind, enrollment_event, record_key, count_key, waitlist_key,
  schema, assign, zero_hash,
}
use line_proof.Enrollment.Storage.{emit, store_record, increment_count}
use line_proof.Enrollment.Contract.{
  new_record, proof_of, is_expired, join_waitlist, override_check, override_record, prior_count,
  enroll_first,
}

abbrev pub entry_of : Observed schema → ℕ → ℕ → Option EnrollmentRecord
entry_of s queue_id identity = s.slots (record_key queue_id identity)

abbrev pub count_of : Observed schema → ℕ → ℕ
count_of s queue_id = unwrap_or (s.slots (count_key queue_id)) 0

-- The duplicates that a new record counts.
abbrev pub duplicates : Option EnrollmentRecord → ℕ
duplicates none = 0
duplicates (some entry) = entry.duplicate_count + 1

abbrev pub rerecorded : ℕ → ℕ → EnrollmentRecord → Observed schema → Observed schema
rerecorded queue_id identity entry s = record s {
  slots = assign (record_key queue_id identity) (some entry) s.slots;
}

pub store_record-ok :
    (identity queue_id : ℕ) (entry : EnrollmentRecord) (s s' : Observed schema)
    → exec (store_record identity queue_id entry) s ≡ ok tt s'
    → s' ≡ rerecorded queue_id identity entry s
store_record-ok identity queue_id entry s s' h = ground arith

pub increment_count-ok :
    (queue_id : ℕ) (s s' : Observed schema)
    → exec (increment_count queue_id) s ≡ ok tt s'
    → (count_of s queue_id + 1 < 2 ^ 32)
      × (s' ≡ record s {
        slots = assign (count_key queue_id) (some (count_of s queue_id + 1)) s.slots;
      })
increment_count-ok queue_id s s' h = ground arith

prior_count-ok :
    (caller queue_id n : ℕ) (s s' : Observed schema)
    → exec (prior_count caller queue_id) s ≡ ok n s'
    → (n ≡ duplicates (entry_of s queue_id caller)) × (s' ≡ s)
prior_count-ok caller queue_id n s s' h = ground arith

abbrev pub waitlist_of : Observed schema → ℕ → List ℕ
waitlist_of s queue_id = unwrap_or (s.slots (waitlist_key queue_id)) []

abbrev pub reported : EnrollmentRecord → ℕ → ℕ → Observed schema → Observed schema
reported entry queue_id identity s = record s {
  log =
      s.log
      ++ enrollment_event Kind.enrolled queue_id identity entry.enrolled_at entry.proof_hash ∷ [];
}

abbrev pub counted : ℕ → Observed schema → Observed schema
counted queue_id s = record s {
  slots = assign (count_key queue_id) (some (count_of s queue_id + 1)) s.slots;
}

-- A record stored over the last, with one event.
abbrev pub overridden : ℕ → ℕ → EnrollmentRecord → Observed schema → Observed schema
overridden queue_id identity entry s =
    reported entry queue_id identity (rerecorded queue_id identity entry s)

-- A record stored and counted, with one event.
abbrev pub enrolled : ℕ → ℕ → EnrollmentRecord → Observed schema → Observed schema
enrolled queue_id identity entry s =
    reported entry queue_id identity (counted queue_id (rerecorded queue_id identity entry s))

report_and_return-ok :
    (entry : EnrollmentRecord) (queue_id identity : ℕ) (p : EnrollmentProof)
    (s s' : Observed schema)
    → exec
        (emit Kind.enrolled queue_id identity entry.enrolled_at entry.proof_hash
          >> returns (proof_of entry))
        s
      ≡ ok p s'
    → (p ≡ proof_of entry) × (reported entry queue_id identity s ≡ s')
report_and_return-ok entry queue_id identity p s s' h = (ground arith, ground arith)

pub enroll_first-ok :
    (env : Env) (caller queue_id : ℕ) (expires_at : Option ℕ) (p : EnrollmentProof)
    (s s' : Observed schema)
    → exec (enroll_first env caller queue_id expires_at) s ≡ ok p s'
    → (n : ℕ) × (n ≡ duplicates (entry_of s queue_id caller))
      × (count_of s queue_id + 1 < 2 ^ 32)
      × (p ≡ proof_of (new_record env caller queue_id n expires_at))
      × (s' ≡ enrolled queue_id caller (new_record env caller queue_id n expires_at) s)
enroll_first-ok env caller queue_id expires_at p s s' h =
    let entry = λ (n : ℕ). new_record env caller queue_id n expires_at in
    let finish = λ (n : ℕ).
      emit Kind.enrolled queue_id caller (entry n).enrolled_at (entry n).proof_hash
      >> returns (proof_of (entry n)) in
    let stored = λ (n : ℕ). store_record caller queue_id (entry n) in
    let count = increment_count queue_id in
    let (n, t, prior, h1) =
      exec-bind_ok (prior_count caller queue_id) (λ n. stored n >> count >> finish n) s h in
    let (is_n, et) = prior_count-ok caller queue_id n s t prior in
    let (_, u, put, h2) = exec-bind_ok (stored n) (λ _. count >> finish n) t h1 in
    let (_, v, up, h3) = exec-bind_ok count (λ _. finish n) u h2 in
    let eu = store_record-ok caller queue_id (entry n) t u put in
    let (fits, ev) = increment_count-ok queue_id u v up in
    let (is_p, es) = report_and_return-ok (entry n) queue_id caller p v s' h3 in
    let eu' = eu ∙ ap (rerecorded queue_id caller (entry n)) et in
    (
      n,
      is_n,
      subst (λ x. count_of x queue_id + 1 < 2 ^ 32) eu' fits,
      is_p,
      sym es ∙ ap (reported (entry n) queue_id caller) (ev ∙ ap (counted queue_id) eu'),
    )

override_check-ok :
    (env : Env) (caller queue_id n : ℕ) (s s' : Observed schema)
    → exec (override_check env caller queue_id) s ≡ ok n s'
    → (old : EnrollmentRecord) × (entry_of s queue_id caller ≡ some old)
      × (is_expired env.timestamp old.expires_at ≡ true)
      × (n ≡ old.duplicate_count + 1)
      × (s' ≡ s)
override_check-ok env caller queue_id n s s' h = ground arith

pub override_record-ok :
    (env : Env) (caller queue_id : ℕ) (expires_at : Option ℕ) (p : EnrollmentProof)
    (s s' : Observed schema)
    → exec (override_record env caller queue_id expires_at) s ≡ ok p s'
    → (old : EnrollmentRecord) × (entry_of s queue_id caller ≡ some old)
      × (is_expired env.timestamp old.expires_at ≡ true)
      × (p ≡ proof_of (new_record env caller queue_id (old.duplicate_count + 1) expires_at))
      × (s'
          ≡ overridden queue_id caller
              (new_record env caller queue_id (old.duplicate_count + 1) expires_at)
              s)
override_record-ok env caller queue_id expires_at p s s' h =
    let entry = λ (n : ℕ). new_record env caller queue_id n expires_at in
    let finish = λ (n : ℕ).
      emit Kind.enrolled queue_id caller (entry n).enrolled_at (entry n).proof_hash
      >> returns (proof_of (entry n)) in
    let stored = λ (n : ℕ). store_record caller queue_id (entry n) in
    let (n, t, checks, h1) =
      exec-bind_ok (override_check env caller queue_id) (λ n. stored n >> finish n) s h in
    let (old, at, late, is_n, et) = override_check-ok env caller queue_id n s t checks in
    let (_, u, put, h2) = exec-bind_ok (stored n) (λ _. finish n) t h1 in
    let eu = store_record-ok caller queue_id (entry n) t u put in
    let (is_p, es) = report_and_return-ok (entry n) queue_id caller p u s' h2 in
    (
      old,
      at,
      late,
      is_p ∙ ap (λ m. proof_of (entry m)) is_n,
      sym es
          ∙ ap (reported (entry n) queue_id caller)
              (eu ∙ ap (rerecorded queue_id caller (entry n)) et)
          ∙ ap (λ m. overridden queue_id caller (entry m) s) is_n,
    )

-- The caller appended to the waitlist, with one event.
abbrev pub waitlisted : Env → ℕ → ℕ → Observed schema → Observed schema
waitlisted env queue_id caller s = record {
  slots = assign (waitlist_key queue_id) (some (waitlist_of s queue_id ++ caller ∷ [])) s.slots;
  log = s.log ++ enrollment_event Kind.waitlist_added queue_id caller env.timestamp zero_hash ∷ [];
}

pub join_waitlist-ok :
    (env : Env) (caller queue_id : ℕ) (p : EnrollmentProof) (s s' : Observed schema)
    → exec (join_waitlist env caller queue_id) s ≡ ok p s'
    → (contains caller (waitlist_of s queue_id) ≡ false) × (s' ≡ waitlisted env queue_id caller s)
join_waitlist-ok env caller queue_id p s s' h = ground arith
