-- ===== src/Enrollment/Tests/Later.antt =====
-- A history of enrollments, and what the theorems on the roster, on cancelling and on finalizing say
-- of it.
use line_proof.Base.{
  ℕ, FiniteSet, is_member, size, IsDistinct, ◌≤◌, ◌+◌, ◌≡◌, ◌↔◌, refl, none, some, true, false, [],
  ◌∷◌,
}
use line_proof.Soroban.Schema.{Observed}
use line_proof.Soroban.Exec.{ok, exec, blank}
use line_proof.Enrollment.Types.{
  EnrollmentRecord, grant_waiting_list, duplicate_behavior_changed, schema, assign,
  dup_behavior_key,
}
use line_proof.Enrollment.Contract.{new_record, enroll, cancel, set_duplicate_behavior}
use line_proof.Enrollment.Effects.{entry_of, count_of, waitlist_of, enrolled, waitlisted}
use line_proof.Enrollment.Settling.{withdrawn, cancel-exact}
use line_proof.Enrollment.Calls.{
  enroll_call, cancel_call, set_duplicate_behavior_call, invoke, Reach, unused, later,
}
use line_proof.Enrollment.Storage.{is_live}
use line_proof.Enrollment.Counts.{Reach-counts}
use line_proof.Enrollment.Tests.{env}

abbrev set_up : Observed schema
set_up = record {
  slots = assign dup_behavior_key (some grant_waiting_list) (blank {S = schema}).slots;
  log = duplicate_behavior_changed grant_waiting_list ∷ [];
}

abbrev entry : EnrollmentRecord
entry = new_record env 21 3 0 none

abbrev one_in : Observed schema
one_in = enrolled 3 21 entry set_up

abbrev one_waits : Observed schema
one_waits = waitlisted env 3 21 one_in

abbrev one_out : Observed schema
one_out = withdrawn env 3 21 entry one_waits

set_up_Step :
    exec (invoke env (set_duplicate_behavior_call 7 grant_waiting_list)) blank ≡ ok tt set_up
unfolding invoke set_duplicate_behavior
set_up_Step = refl

one_in_Step : exec (invoke env (enroll_call 21 3 none)) set_up ≡ ok tt one_in
unfolding invoke enroll
one_in_Step = refl

one_waits_Step : exec (invoke env (enroll_call 21 3 none)) one_in ≡ ok tt one_waits
unfolding invoke enroll
one_waits_Step = refl

one_out_Step : exec (invoke env (cancel_call 21 3)) one_waits ≡ ok tt one_out
unfolding invoke cancel
one_out_Step = refl

one_out_Reach : Reach (0 + 0 + 0 + 0 + 0) one_out
one_out_Reach =
    later env (cancel_call 21 3)
      (later env (enroll_call 21 3 none)
        (later env (enroll_call 21 3 none)
          (later env (set_duplicate_behavior_call 7 grant_waiting_list) unused set_up_Step)
          one_in_Step)
        one_waits_Step)
      one_out_Step

Reach-counts_example :
    (x : FiniteSet) × ((i : ℕ) → is_member i x ≡ is_live (entry_of one_out 3 i))
    × ((y : FiniteSet) → ((i : ℕ) → is_member i y ≡ is_live (entry_of one_out 3 i)) → y ≡ x)
    × (size x ≤ count_of one_out 3)
    × (count_of one_out 3 ≤ size x + (0 + 0 + 0 + 0 + 0))
    × IsDistinct (waitlist_of one_out 3)
Reach-counts_example = Reach-counts (0 + 0 + 0 + 0 + 0) one_out 3 one_out_Reach

cancel-exact_example : (exec (cancel env 21 3) one_in ≡ ok tt (withdrawn env 3 21 entry one_in)) ↔ (
    (old : EnrollmentRecord) × (env.has_auth 21 ≡ true)
    × (entry_of one_in 3 21 ≡ some old)
    × (old.cancelled ≡ false)
    × (withdrawn env 3 21 entry one_in ≡ withdrawn env 3 21 old one_in))
cancel-exact_example = cancel-exact env 21 3 one_in (withdrawn env 3 21 entry one_in)
