-- ===== src/Queue/Exact.antt =====
-- The exact conditions under which positions are taken and given up.
use line_proof.Base.{ℕ, ◌+◌, ◌^◌, ◌<◌, ◌≡◌, ◌↔◌, some, true, arith}
use line_proof.Soroban.Schema.{Observed}
use line_proof.Soroban.Program.{Env}
use line_proof.Soroban.Exec.{ok, exec}
use line_proof.Queue.Types.{QueueConfig, QueueStatus, Position, PositionStatus, schema, config_key}
use line_proof.Queue.Positions.{enroll_position, cancel_position}
use line_proof.Queue.Effects.Positions.{joined, left, cancel_position-ok}
use line_proof.Queue.Invariant.{position, next_id, active_count}

pub enroll_position-runs :
    (env : Env) (identity id : ℕ) (s s' : Observed schema)
    → (c : QueueConfig) × (s.slots config_key ≡ some c)
      × (env.has_auth identity ≡ true)
      × (c.status ≡ QueueStatus.enrollment_open)
      × (active_count s < c.max_positions)
      × (next_id s + 1 < 2 ^ 32)
      × (active_count s + 1 < 2 ^ 32)
      × (id ≡ next_id s)
      × (s' ≡ joined env identity s)
    → exec (enroll_position env identity) s ≡ ok id s'
unfolding enroll_position
enroll_position-runs env identity id s s'
      (c, at, signed, opened, room, fits, counts, is_id, after) =
    ground arith

enroll_position-checks :
    (env : Env) (identity id : ℕ) (s s' : Observed schema)
    → exec (enroll_position env identity) s ≡ ok id s'
    → (c : QueueConfig) × (s.slots config_key ≡ some c)
      × (env.has_auth identity ≡ true)
      × (c.status ≡ QueueStatus.enrollment_open)
      × (active_count s < c.max_positions)
      × (next_id s + 1 < 2 ^ 32)
      × (active_count s + 1 < 2 ^ 32)
      × (id ≡ next_id s)
      × (s' ≡ joined env identity s)
unfolding enroll_position
enroll_position-checks env identity id s s' h = ground arith

-- `enroll_position` returns exactly if the identity has signed, enrollment is open, there is room and
-- neither counter overflows; the result is then the next id, and the storage has one pending
-- position under it, both counters up by one and one event more.
pub enroll_position-exact :
    (env : Env) (identity id : ℕ) (s s' : Observed schema)
    → (exec (enroll_position env identity) s ≡ ok id s') ↔ (
        (c : QueueConfig) × (s.slots config_key ≡ some c)
        × (env.has_auth identity ≡ true)
        × (c.status ≡ QueueStatus.enrollment_open)
        × (active_count s < c.max_positions)
        × (next_id s + 1 < 2 ^ 32)
        × (active_count s + 1 < 2 ^ 32)
        × (id ≡ next_id s)
        × (s' ≡ joined env identity s))
enroll_position-exact env identity id s s' =
    (enroll_position-checks env identity id s s', enroll_position-runs env identity id s s')

pub cancel_position-runs :
    (env : Env) (identity id : ℕ) (s s' : Observed schema)
    → (p : Position) × (position s id ≡ some p)
      × (env.has_auth identity ≡ true)
      × (p.identity ≡ identity)
      × (p.status ≡ PositionStatus.pending)
      × (s' ≡ left env identity id p s)
    → exec (cancel_position env identity id) s ≡ ok tt s'
unfolding cancel_position
cancel_position-runs env identity id s s' (p, at, signed, own, wait, after) = ground arith

-- `cancel_position` returns exactly if the position exists, is pending and belongs to the identity,
-- which has signed; then only its status becomes cancelled, the active count goes down by one, if it
-- is positive, and one event is published.
pub cancel_position-exact :
    (env : Env) (identity id : ℕ) (s s' : Observed schema)
    → (exec (cancel_position env identity id) s ≡ ok tt s') ↔ (
        (p : Position) × (position s id ≡ some p)
        × (env.has_auth identity ≡ true)
        × (p.identity ≡ identity)
        × (p.status ≡ PositionStatus.pending)
        × (s' ≡ left env identity id p s))
cancel_position-exact env identity id s s' =
    (cancel_position-ok env identity id s s', cancel_position-runs env identity id s s')
