-- ===== src/Queue/Restart.antt =====
-- What happens when a queue in use is set up again, which the source does not prevent.
use line_proof.Base.{ℕ, ◌<◌, ◌≡◌, ◌≢◌, true, some, ap, ◌∙◌, refl, arith}
use line_proof.Soroban.Schema.{Observed}
use line_proof.Soroban.Program.{Env, ◌>>◌}
use line_proof.Soroban.Exec.{ok, exec, exec-bind, and_then}
use line_proof.Queue.Types.{QueueConfig, enrollment_open, schema}
use line_proof.Queue.Admin.{initialize}
use line_proof.Queue.Positions.{enroll_position}
use line_proof.Queue.Effects.Admin.{begun}
use line_proof.Queue.Effects.Positions.{joined, fresh}
use line_proof.Queue.Invariant.{position}
use line_proof.Queue.Exact.{enroll_position-runs}
use line_proof.Queue.Runs.{initialize-runs}

-- On any storage, whoever is the admin there and whatever positions it has: one who signs as the
-- admin of a configuration that is open for enrollment with room for one can set the contract up
-- with it, and an identity that signs is then given position 1, whoever held it; every other
-- position stays.
pub initialize_reassigns :
    (env : Env) (admin identity : ℕ) (config : QueueConfig) (s : Observed schema)
    → env.has_auth admin ≡ true
    → config.admin ≡ admin
    → config.status ≡ enrollment_open
    → 0 < config.max_positions
    → env.has_auth identity ≡ true
    → (s' : Observed schema) × (exec (initialize env admin config >> enroll_position env identity) s
        ≡ ok 1 s')
      × (position s' 1 ≡ some (fresh env identity 1))
      × ((i : ℕ) → i ≢ 1 → position s' i ≡ position s i)
initialize_reassigns env admin identity config s signed own opened room holder =
    let again = begun admin config s in
    (
      joined env identity again,
      exec-bind (initialize env admin config) (λ _. enroll_position env identity) s
          ∙ ap (λ r. and_then r (λ _ t. exec (enroll_position env identity) t))
              (initialize-runs env admin config s signed own)
          ∙ enroll_position-runs env identity 1 again (joined env identity again)
              (config, refl, holder, opened, room, omega arith, omega arith, refl, refl),
      refl,
      (λ i other. ground arith),
    )
