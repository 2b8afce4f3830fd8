-- ===== src/Queue/Tests/Later.antt =====
-- The same history, and what the theorems on series of calls, on faults and on the abstract
-- transition system say of it.
use line_proof.Base.{ℕ, ◌≡◌, ◌↔◌, ◌≢◌, refl, some, false, [], ◌∷◌, ◌⊎◌, inl, arith, List}
use line_proof.Soroban.Schema.{Observed}
use line_proof.Soroban.Program.{Env, ◌>>◌, overflowed, unauthorized}
use line_proof.Soroban.Exec.{ok, fault, exec}
use line_proof.Queue.Types.{QueueConfig, QueueStatus, Position, PositionStatus, schema, is_pending}
use line_proof.Queue.Admin.{initialize, propose_admin}
use line_proof.Queue.Calls.{Call, advance_call, propose_admin_call, close_enrollment_call, invoke}
use line_proof.Queue.Invariant.{position}
use line_proof.Queue.Effects.Positions.{fresh}
use line_proof.Queue.Histories.{Reach-IsValid}
use line_proof.Queue.Changes.{Change, Restart}
use line_proof.Queue.Progress.{Runs, Runs-settles}
use line_proof.Queue.Liveness.{Serves, Serves-advances}
use line_proof.Queue.Faults.{IsRefusal, IsExhausted, invoke-refused}
use line_proof.Queue.Complete.{Change-exact}
use line_proof.Queue.Positions.{enroll_position, expire_positions_batch}
use line_proof.Queue.Restart.{initialize_reassigns}
use line_proof.Queue.Batch.{expire_in_turn, batch-in_turn}
use line_proof.Queue.Tests.{
  env, config, two_in, shut, both_served, two_in_Reach, shut_Reach, shut_Step, both_served_Step,
}

-- Enrollment is closed, and two positions are served.
abbrev closing : List (Env × Call)
closing = (env, close_enrollment_call 7) ∷ (env, advance_call 7 2) ∷ []

closing-Runs : Runs closing two_in both_served
closing-Runs = (shut, shut_Step, (both_served, both_served_Step, refl))

Runs-settles_example :
    (q : Position) × (position both_served 2 ≡ some q)
    × (q.identity ≡ 22)
    × (is_pending q.status ≡ false)
Runs-settles_example =
    Runs-settles closing two_in both_served 2 (fresh env 22 2) (Reach-IsValid two_in_Reach) refl
      closing-Runs refl (omega arith)

-- Two batches of one position.
abbrev batches : List (Env × ℕ)
batches = (env, 1) ∷ (env, 1) ∷ []

Serves-advances_example :
    (s' : Observed schema) × (q : Position) × Serves 7 batches shut s'
    × (position s' 2 ≡ some q)
    × (q.identity ≡ 22)
    × (q.status ≡ PositionStatus.advanced)
Serves-advances_example =
    Serves-advances 7 batches (config QueueStatus.enrollment_closed) shut 2 (fresh env 22 2)
      (Reach-IsValid shut_Reach) (refl, refl, inl refl, refl)
      (refl, (λ e. absurd (omega (arith, e))), (refl, (λ e. absurd (omega (arith, e))), tt)) refl
      refl (omega arith)

abbrev unsigned : Env
unsigned = record env { has_auth = λ who. false }

unsigned_fault : exec (invoke unsigned (propose_admin_call 7 8)) two_in ≡ fault unauthorized
unfolding invoke propose_admin
unsigned_fault = refl

invoke-refused_example : IsRefusal unauthorized ⊎ ((unauthorized ≡ overflowed) × IsExhausted two_in)
invoke-refused_example =
    invoke-refused unsigned (propose_admin_call 7 8) two_in unauthorized
      (Reach-IsValid two_in_Reach) unsigned_fault

Change-exact_example :
    (Change env two_in shut ⊎ Restart env two_in shut)
    ↔ ((call : Call) × (exec (invoke env call) two_in ≡ ok tt shut))
Change-exact_example = Change-exact env two_in shut (Reach-IsValid two_in_Reach)

batch-in_turn_example :
    exec (expire_positions_batch env 7 (2 ∷ 1 ∷ [])) two_in
    ≡ exec (expire_in_turn env 7 (2 ∷ 1 ∷ [])) two_in
batch-in_turn_example = batch-in_turn env 7 2 (1 ∷ []) two_in

-- Position 1 of the queue is given away: 9 sets the queue up again, and 30 enrolls.
abbrev hostile : QueueConfig
hostile = record (config QueueStatus.enrollment_open) { admin = 9 }

initialize_reassigns_example :
    (s' : Observed schema) × (exec (initialize env 9 hostile >> enroll_position env 30) both_served
      ≡ ok 1 s')
    × (position s' 1 ≡ some (fresh env 30 1))
    × ((i : ℕ) → i ≢ 1 → position s' i ≡ position both_served i)
initialize_reassigns_example =
    initialize_reassigns env 9 30 hostile both_served refl refl refl (omega arith) refl
