-- ===== src/Enrollment/Calls.antt =====
-- The entry points of the trait `Enrollment` that change state, as one type of calls, and the
-- histories of an enrollment contract. A call that faults is rolled back, so it is no step.
use line_proof.Base.{ℕ, ◌+◌, ◌≡◌, Option}
use line_proof.Soroban.Schema.{Observed}
use line_proof.Soroban.Program.{Env, Program, ◌>>◌, returns}
use line_proof.Soroban.Exec.{ok, exec, blank}
use line_proof.Enrollment.Types.{DuplicateBehavior, schema}
use line_proof.Enrollment.Contract.{
  enroll, cancel, set_duplicate_behavior, finalize_enrollment, promote_from_waitlist,
}

-- The arguments are the source's, `env` left out.
pub data Call : Type 0 where
  enroll_call : ℕ → ℕ → Option ℕ → Call
  cancel_call : ℕ → ℕ → Call
  set_duplicate_behavior_call : ℕ → DuplicateBehavior → Call
  finalize_enrollment_call : ℕ → ℕ → ℕ → Call
  promote_from_waitlist_call : ℕ → ℕ → ℕ → Call

-- The results are dropped.
unfoldable pub invoke : Env → Call → Program schema (Unit {0})
invoke env (enroll_call caller queue_id expires_at) =
    enroll env caller queue_id expires_at >> returns tt
invoke env (cancel_call caller queue_id) = cancel env caller queue_id
invoke env (set_duplicate_behavior_call admin behavior) = set_duplicate_behavior env admin behavior
invoke env (finalize_enrollment_call admin identity queue_id) =
    finalize_enrollment env admin identity queue_id
invoke env (promote_from_waitlist_call admin queue_id count) =
    promote_from_waitlist env admin queue_id count

-- The promotions that a call asks for.
abbrev pub asked : Call → ℕ
asked (promote_from_waitlist_call admin queue_id count) = count
asked _ = 0

-- The contract has no set-up. `Reach n s`: calls that ask for `n` promotions in all lead to `s`.
pub data Reach : ℕ → Observed schema → Type 0 where
  unused : Reach 0 blank
  later :
      {n : ℕ} {s s' : Observed schema} (env : Env) (call : Call)
      → Reach n s
      → exec (invoke env call) s ≡ ok tt s'
      → Reach (n + asked call) s'
