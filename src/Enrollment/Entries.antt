-- ===== src/Enrollment/Entries.antt =====
-- What `enroll` does, and what `is_enrolled` answers after it.
use line_proof.Base.{
  ℕ, ◌+◌, ◌^◌, ◌<◌, ◌≡◌, refl, Option, some, Bool, true, false, not, ◌∙◌, ap, sym, subst, arith,
  unwrap_or, if◌then◌else◌, contains,
}
use line_proof.Soroban.Schema.{Observed}
use line_proof.Soroban.Program.{Env, ◌>>=◌, get, require_auth}
use line_proof.Soroban.Exec.{ok, exec, exec-bind_ok}
use line_proof.Enrollment.Types.{
  EnrollmentProof, EnrollmentRecord, DuplicateBehavior, reject, grant_waiting_list,
  override_expired, dup_behavior_key, schema,
}
use line_proof.Enrollment.Storage.{is_enrolled, is_enrolled_internal, is_live}
use line_proof.Enrollment.Contract.{new_record, is_expired, enroll_first, enroll_again, enroll}
use line_proof.Enrollment.Effects.{
  entry_of, count_of, waitlist_of, duplicates, overridden, enrolled, waitlisted, join_waitlist-ok,
  enroll_first-ok, override_record-ok,
}

-- The ways in which `enroll` can return.
pub data Enrolls (env : Env) (caller queue_id : ℕ) (expires_at : Option ℕ) (s : Observed schema)
    : Observed schema → Type 0 where
  first :
      is_live (entry_of s queue_id caller) ≡ false
      → count_of s queue_id + 1 < 2 ^ 32
      → Enrolls env caller queue_id expires_at s (
          enrolled queue_id caller
            (new_record env caller queue_id (duplicates (entry_of s queue_id caller)) expires_at)
            s)
  waits :
      is_live (entry_of s queue_id caller) ≡ true
      → s.slots dup_behavior_key ≡ some grant_waiting_list
      → contains caller (waitlist_of s queue_id) ≡ false
      → Enrolls env caller queue_id expires_at s (waitlisted env queue_id caller s)
  overrides :
      (old : EnrollmentRecord)
      → entry_of s queue_id caller ≡ some old
      → old.cancelled ≡ false
      → s.slots dup_behavior_key ≡ some override_expired
      → is_expired env.timestamp old.expires_at ≡ true
      → Enrolls env caller queue_id expires_at s (
          overridden queue_id caller
            (new_record env caller queue_id (old.duplicate_count + 1) expires_at)
            s)

pub signed-ok :
    (env : Env) (who : ℕ) (s s' : Observed schema)
    → exec (require_auth {S = schema} env who) s ≡ ok tt s'
    → (env.has_auth who ≡ true) × (s' ≡ s)
signed-ok env who s s' h = ground arith

enroll_again-ok :
    (behavior : DuplicateBehavior) (env : Env) (caller queue_id : ℕ) (expires_at : Option ℕ)
    (p : EnrollmentProof) (s s' : Observed schema)
    → is_live (entry_of s queue_id caller) ≡ true
    → unwrap_or (s.slots dup_behavior_key) reject ≡ behavior
    → exec (enroll_again behavior env caller queue_id expires_at) s ≡ ok p s'
    → Enrolls env caller queue_id expires_at s s'
enroll_again-ok reject env caller queue_id expires_at p s s' live set h = absurd (cc)
enroll_again-ok grant_waiting_list env caller queue_id expires_at p s s' live set h =
    let (new, after) = join_waitlist-ok env caller queue_id p s s' h in
    subst (Enrolls env caller queue_id expires_at s) (sym after) (waits live (ground arith) new)
enroll_again-ok override_expired env caller queue_id expires_at p s s' live set h =
    let (old, at, late, is_p, after) = override_record-ok env caller queue_id expires_at p s s' h in
    subst (Enrolls env caller queue_id expires_at s) (sym after)
      (overrides old at (ground arith) (ground arith) late)

enroll_rest-ok :
    (env : Env) (caller queue_id : ℕ) (expires_at : Option ℕ) (p : EnrollmentProof) (b : Bool)
    (s s' : Observed schema)
    → is_live (entry_of s queue_id caller) ≡ b
    → exec
        (if not b
          then enroll_first env caller queue_id expires_at
          else (get dup_behavior_key >>= λ behavior.
              enroll_again (unwrap_or behavior reject) env caller queue_id expires_at))
        s
      ≡ ok p s'
    → Enrolls env caller queue_id expires_at s s'
enroll_rest-ok env caller queue_id expires_at p true s s' live h =
    enroll_again-ok (unwrap_or (s.slots dup_behavior_key) reject) env caller queue_id expires_at p s
      s' live refl h
enroll_rest-ok env caller queue_id expires_at p false s s' live h =
    let (n, is_n, fits, is_p, after) = enroll_first-ok env caller queue_id expires_at p s s' h in
    subst (Enrolls env caller queue_id expires_at s)
      (sym (
        after
        ∙ ap (λ m. enrolled queue_id caller (new_record env caller queue_id m expires_at) s) is_n))
      (first live fits)

-- If `enroll` returns, the caller has signed, and one of three things has happened: the caller was
-- not enrolled, and has a new, counted record with the duplicates of a cancelled one carried on; or
-- was enrolled, duplicates go to the waitlist, and is its last entry now; or was enrolled with a
-- record that has expired, duplicates override, and the record is replaced without counting.
pub enroll-ok :
    (env : Env) (caller queue_id : ℕ) (expires_at : Option ℕ) (p : EnrollmentProof)
    (s s' : Observed schema)
    → exec (enroll env caller queue_id expires_at) s ≡ ok p s'
    → (env.has_auth caller ≡ true) × Enrolls env caller queue_id expires_at s s'
unfolding enroll
enroll-ok env caller queue_id expires_at p s s' h =
    let rest = λ (b : Bool).
      if not b
      then enroll_first env caller queue_id expires_at
      else (get dup_behavior_key >>= λ behavior.
          enroll_again (unwrap_or behavior reject) env caller queue_id expires_at) in
    let (_, t, signed, h1) =
      exec-bind_ok (require_auth env caller) (λ _. is_enrolled_internal caller queue_id >>= rest) s
        h in
    let (yes_signed, same) = signed-ok env caller s t signed in
    let h2 : exec (rest (is_live (entry_of s queue_id caller))) s ≡ ok p s' =
      subst (λ u. exec (rest (is_live (entry_of u queue_id caller))) u ≡ ok p s') same h1 in
    (
      yes_signed,
      enroll_rest-ok env caller queue_id expires_at p (is_live (entry_of s queue_id caller)) s s'
          refl h2,
    )

is_enrolled-exact :
    (i q : ℕ) (s : Observed schema) → exec (is_enrolled i q) s ≡ ok (is_live (entry_of s q i)) s
unfolding is_enrolled
is_enrolled-exact i q s = ground arith

Enrolls-live :
    (env : Env) (caller queue_id : ℕ) (expires_at : Option ℕ) (s s' : Observed schema)
    → Enrolls env caller queue_id expires_at s s'
    → is_live (entry_of s' queue_id caller) ≡ true
Enrolls-live env caller queue_id expires_at s _ (first live fits) = ground arith
Enrolls-live env caller queue_id expires_at s _ (waits live set new) = live
Enrolls-live env caller queue_id expires_at s _ (overrides old at live set late) = ground arith

-- After `enroll` returns, by whichever way, `is_enrolled` answers true for the caller.
pub enroll-is_enrolled :
    (env : Env) (caller queue_id : ℕ) (expires_at : Option ℕ) (p : EnrollmentProof)
    (s s' : Observed schema)
    → exec (enroll env caller queue_id expires_at) s ≡ ok p s'
    → exec (is_enrolled caller queue_id) s' ≡ ok true s'
enroll-is_enrolled env caller queue_id expires_at p s s' h =
    let (signed, enrolls) = enroll-ok env caller queue_id expires_at p s s' h in
    is_enrolled-exact caller queue_id s'
    ∙ ap (λ b. ok b s') (Enrolls-live env caller queue_id expires_at s s' enrolls)
