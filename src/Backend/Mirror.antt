-- ===== src/Backend/Mirror.antt =====
-- The statuses of the backend against the queue contract's: the service accepts the moves that the
-- contract makes.
use line_proof.Base.{◌≡◌, some, ◌+◌}
use line_proof.Soroban.Schema.{Observed}
use line_proof.Soroban.Program.{Env}
use line_proof.Soroban.Exec.{ok, exec}
use line_proof.Queue.Types
use line_proof.Queue.Types.{
  QueueConfig, draft, enrollment_open, enrollment_closed, advancement_active, closed, schema,
  config_key, is_closed, Position, PositionStatus,
}
use line_proof.Queue.Calls.{Call, invoke, set_ups}
use line_proof.Queue.Invariant.{position, cursor}
use line_proof.Backend.Status.{QueueStatus}

-- The backend's name of a status on chain.
abbrev pub mirror : Types.QueueStatus → QueueStatus
mirror draft = QueueStatus.draft
mirror enrollment_open = QueueStatus.enrollment_open
mirror enrollment_closed = QueueStatus.enrollment_closed
mirror advancement_active = QueueStatus.advancement_active
mirror closed = QueueStatus.closed

-- The next position that `advance` looks at waits.
abbrev pub IsWaited : Observed schema → Type 0
IsWaited s =
    (p : Position) × (position s (cursor s + 1) ≡ some p) × (p.status ≡ PositionStatus.pending)

-- A returned call but `initialize` that leaves `b` for the status, and the rest of `c` as it was.
abbrev pub Reaches : Env → Observed schema → QueueConfig → Types.QueueStatus → Type 0
Reaches env s c b =
    (call : Call) × (s' : Observed schema) × (set_ups call ≡ 0)
    × (exec (invoke env call) s ≡ ok tt s')
    × (s'.slots config_key ≡ some (record c { status = b }))
