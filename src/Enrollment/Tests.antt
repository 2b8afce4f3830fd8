-- ===== src/Enrollment/Tests.antt =====
-- An identity that enrolls, waits and is promoted, and what the theorems say of it.
mod Later
use line_proof.Base.{
  arith, ◌≡◌, ◌↔◌, ◌+◌, refl, none, some, true, false, List, [], ◌++◌, min, length, contains, ℕ,
}
use line_proof.Soroban.Schema.{Observed}
use line_proof.Soroban.Program.{Env}
use line_proof.Soroban.Exec.{ok, exec, blank}
use line_proof.Enrollment.Types.{
  grant_waiting_list, EnrollmentProof, schema, assign, dup_behavior_key, waitlist_key, zero_hash,
}
use line_proof.Enrollment.Storage.{is_enrolled}
use line_proof.Enrollment.Contract.{new_record, proof_of, enroll, promote_from_waitlist}
use line_proof.Enrollment.Effects.{entry_of, count_of, waitlist_of, enrolled, waitlisted}
use line_proof.Enrollment.Entries.{Enrolls, waits, enroll-ok, enroll-is_enrolled}
use line_proof.Enrollment.Total.{enroll-exact}
use line_proof.Enrollment.Promotion.{promote_from_waitlist-runs}
use line_proof.Enrollment.Waitlist.{promote_from_waitlist-ok}

abbrev env : Env
env = record {
  timestamp = 50;
  current_contract_address = 1;
  has_auth = λ who. true;
  symbol = λ text. 0;
  sha256_xdr = λ identity queue_id enrolled_at. identity;
  deploy = λ hash salt. none;
}

-- Duplicates go to the waitlist.
abbrev started : Observed schema
started = record blank {
  slots = assign dup_behavior_key (some grant_waiting_list) (blank {S = schema}).slots;
}

abbrev once : Observed schema
once = enrolled 3 21 (new_record env 21 3 0 none) started

abbrev twice : Observed schema
twice = waitlisted env 3 21 once

abbrev waiting_proof : EnrollmentProof
waiting_proof = record {
  queue_id = 3;
  identity = 21;
  enrolled_at = 50;
  proof_hash = zero_hash;
  expires_at = none;
}

once_Step : exec (enroll env 21 3 none) started ≡ ok (proof_of (new_record env 21 3 0 none)) once
unfolding enroll
once_Step = refl

twice_Step : exec (enroll env 21 3 none) once ≡ ok waiting_proof twice
unfolding enroll
twice_Step = refl

abbrev promoted : Observed schema
promoted = record (enrolled 3 21 (new_record env 21 3 0 none) twice) {
  slots =
      assign (waitlist_key 3) (some []) (enrolled 3 21 (new_record env 21 3 0 none) twice).slots;
}

promoted_Step : exec (promote_from_waitlist env 7 3 5) twice ≡ ok tt promoted
unfolding promote_from_waitlist
promoted_Step = refl

promote_from_waitlist-ok_example :
    (env.has_auth 7 ≡ true)
    × ((first : List ℕ) × (waitlist_of twice 3 ≡ first ++ waitlist_of promoted 3)
        × (length first ≡ min 5 (length (waitlist_of twice 3)))
        × (count_of promoted 3 ≡ count_of twice 3 + length first)
        × ((i : ℕ)
            → contains i first ≡ true
            → entry_of promoted 3 i ≡ some (new_record env i 3 0 none))
        × ((i : ℕ) → contains i first ≡ false → entry_of promoted 3 i ≡ entry_of twice 3 i))
promote_from_waitlist-ok_example = promote_from_waitlist-ok env 7 3 5 twice promoted promoted_Step

enroll-exact_example :
    ((p : EnrollmentProof) × (exec (enroll env 21 3 none) once ≡ ok p twice))
    ↔ ((env.has_auth 21 ≡ true) × Enrolls env 21 3 none once twice)
enroll-exact_example = enroll-exact env 21 3 none once twice (omega arith)
