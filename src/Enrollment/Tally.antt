-- ===== src/Enrollment/Tally.antt =====
-- The roster along a history of an enrollment contract.
use line_proof.Base.{
  ℕ, ◌+◌, ◌≡◌, refl, sym, subst, Option, some, true, false, [], ◌∷◌, ◌++◌, arith, contains,
  append-IsDistinct, ℕ_discrete, IsDistinct,
}
use line_proof.Soroban.Schema.{Observed}
use line_proof.Soroban.Program.{Env, returns}
use line_proof.Soroban.Exec.{ok, exec, exec-bind_ok}
use line_proof.Enrollment.Types.{
  EnrollmentRecord, DuplicateBehavior, duplicate_behavior_changed, dup_behavior_key, schema, assign,
}
use line_proof.Enrollment.Contract.{enroll, set_duplicate_behavior}
use line_proof.Enrollment.Effects.{entry_of, waitlist_of, waitlisted}
use line_proof.Enrollment.Entries.{Enrolls, first, waits, overrides, enroll-ok}
use line_proof.Enrollment.Promoted.{promote_from_waitlist-IsTallied}
use line_proof.Enrollment.Settling.{withdrawn, cancel-ok, finalize_enrollment-ok}
use line_proof.Enrollment.Calls.{
  Call, enroll_call, cancel_call, set_duplicate_behavior_call, finalize_enrollment_call,
  promote_from_waitlist_call, invoke, asked, Reach, unused, later,
}
use line_proof.Enrollment.Roster.{
  IsTallied, blank-IsTallied, same-IsTallied, wider-IsTallied, entered-IsTallied, gone-IsTallied,
}

waitlisted-IsDistinct :
    (env : Env) (caller queue_id : ℕ) (s : Observed schema)
    → contains caller (waitlist_of s queue_id) ≡ false
    → ((q : ℕ) → IsDistinct (waitlist_of s q))
    → (q : ℕ) → IsDistinct (waitlist_of (waitlisted env queue_id caller s) q)
waitlisted-IsDistinct env caller queue_id s new lined q = elim (ℕ_discrete queue_id q) [
  | yes same ↦
      subst IsDistinct {x = waitlist_of s queue_id ++ caller ∷ []} (ground arith)
        (append-IsDistinct caller (waitlist_of s queue_id) (lined queue_id) new)
  | no other ↦ subst IsDistinct {x = waitlist_of s q} (ground arith) (lined q)
]

Enrolls-IsTallied :
    (env : Env) (caller queue_id n : ℕ) (expires_at : Option ℕ) (s s' : Observed schema)
    → Enrolls env caller queue_id expires_at s s'
    → IsTallied n s
    → IsTallied n s'
Enrolls-IsTallied env caller queue_id n expires_at s _ (first out fits) t =
    entered-IsTallied n queue_id caller s _ t (λ q. refl) out (λ q i. ground arith)
      (λ q. ground arith)
Enrolls-IsTallied env caller queue_id n expires_at s _ (waits live behavior new) t =
    same-IsTallied n s _ t (λ q i. refl) (λ q. refl)
      (waitlisted-IsDistinct env caller queue_id s new t.lined)
Enrolls-IsTallied env caller queue_id n expires_at s _ (overrides old at live behavior late) t =
    same-IsTallied n s _ t (λ q i. ground arith) (λ q. refl) t.lined

set_duplicate_behavior-ok :
    (env : Env) (admin : ℕ) (behavior : DuplicateBehavior) (s s' : Observed schema)
    → exec (set_duplicate_behavior env admin behavior) s ≡ ok tt s'
    → (env.has_auth admin ≡ true)
      × (s' ≡ record {
        slots = assign dup_behavior_key (some behavior) s.slots;
        log = s.log ++ duplicate_behavior_changed behavior ∷ [];
      })
unfolding set_duplicate_behavior
set_duplicate_behavior-ok env admin behavior s s' h = ground arith

withdrawn-IsTallied :
    (env : Env) (caller queue_id n : ℕ) (entry : EnrollmentRecord) (s : Observed schema)
    → entry_of s queue_id caller ≡ some entry
    → entry.cancelled ≡ false
    → IsTallied n s
    → IsTallied n (withdrawn env queue_id caller entry s)
withdrawn-IsTallied env caller queue_id n entry s at live t =
    gone-IsTallied n queue_id caller s _ t (λ q. ground arith) (ground arith) (λ q i. ground arith)
      (λ q. ground arith)

-- A call that returns keeps the roster, and widens its gap by no more than the promotions asked for.
invoke-IsTallied :
    (env : Env) (call : Call) (n : ℕ) (s s' : Observed schema)
    → exec (invoke env call) s ≡ ok tt s'
    → IsTallied n s
    → IsTallied (n + asked call) s'
unfolding invoke
invoke-IsTallied env (enroll_call caller queue_id expires_at) n s s' h t =
    let (p, u, ran, last) =
      exec-bind_ok (enroll env caller queue_id expires_at) (λ _. returns tt) s h in
    let (signed, enrolls) = enroll-ok env caller queue_id expires_at p s u ran in
    let same : u ≡ s' = cc in
    wider-IsTallied n (n + 0) s' (omega arith) (
      Enrolls-IsTallied env caller queue_id n expires_at s s'
        (subst (Enrolls env caller queue_id expires_at s) same enrolls) t)
invoke-IsTallied env (cancel_call caller queue_id) n s s' h t =
    let (entry, signed, at, live, after) = cancel-ok env caller queue_id s s' h in
    wider-IsTallied n (n + 0) s' (omega arith) (
      subst (IsTallied n) (sym after) (withdrawn-IsTallied env caller queue_id n entry s at live t))
invoke-IsTallied env (set_duplicate_behavior_call admin behavior) n s s' h t =
    let (signed, after) = set_duplicate_behavior-ok env admin behavior s s' h in
    wider-IsTallied n (n + 0) s' (omega arith)
      (subst (IsTallied n) (sym after) (same-IsTallied n s _ t (λ q i. refl) (λ q. refl) t.lined))
invoke-IsTallied env (finalize_enrollment_call admin identity queue_id) n s s' h t =
    let (entry, signed, at, live, new, after) =
      finalize_enrollment-ok env admin identity queue_id s s' h in
    wider-IsTallied n (n + 0) s' (omega arith) (
      subst (IsTallied n) (sym after)
        (same-IsTallied n s _ t (λ q i. ground arith) (λ q. refl) t.lined))
invoke-IsTallied env (promote_from_waitlist_call admin queue_id count) n s s' h t =
    promote_from_waitlist-IsTallied env admin queue_id count n s s' h t

-- In every history, for each queue the identities that `is_enrolled` answers true for form a finite
-- roster without repetition; the stored count is at least its length, and exceeds it by no more than
-- the promotions that were asked for; and nobody stands on the waitlist of a queue twice.
pub Reach-IsTallied : {n : ℕ} {s : Observed schema} → Reach n s → IsTallied n s
Reach-IsTallied unused = blank-IsTallied
Reach-IsTallied (later env call r h) = invoke-IsTallied env call _ _ _ h (Reach-IsTallied r)
