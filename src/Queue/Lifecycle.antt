-- ===== src/Queue/Lifecycle.antt =====
-- The entry points of contracts/lineproof-queue/src/lib.rs that move the queue's status.
use line_proof.Base.{ℕ, not}
use line_proof.Soroban.Program.{Env, Program, ◌>>=◌, ◌>>◌, panic_if}
use line_proof.Queue.Types.{QueueStatus, Kind, schema, is_draft, is_enrollment_open, is_closed}
use line_proof.Queue.Storage.{emit, require_admin, get_config_internal, store_config}

unfoldable pub open_enrollment : Env → ℕ → Program schema (Unit {0})
open_enrollment env admin = do
  config ← get_config_internal
  require_admin env config admin
  panic_if (not (is_draft config.status)) "enrollment can only be opened from draft state"
  store_config (record config { status = QueueStatus.enrollment_open })
  emit Kind.enrollment_opened 0 admin env.timestamp

unfoldable pub close_enrollment : Env → ℕ → Program schema (Unit {0})
close_enrollment env admin = do
  config ← get_config_internal
  require_admin env config admin
  panic_if (not (is_enrollment_open config.status))
      "enrollment can only be closed from enrollment_open state"
  store_config (record config { status = QueueStatus.enrollment_closed })
  emit Kind.enrollment_closed 0 admin env.timestamp

unfoldable pub close : Env → ℕ → Program schema (Unit {0})
close env admin = do
  config ← get_config_internal
  require_admin env config admin
  panic_if (is_closed config.status) "queue is closed"
  store_config (record config { status = QueueStatus.closed })
  emit Kind.queue_closed 0 admin env.timestamp
