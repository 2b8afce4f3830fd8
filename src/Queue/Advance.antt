-- ===== src/Queue/Advance.antt =====
-- `advance` of contracts/lineproof-queue/src/lib.rs.
use line_proof.Base.{
  ℕ, zero, suc, ◌+◌, ◌-◌, not, ◌&&◌, ◌||◌, Option, none, some, List, [], ◌∷◌, ◌++◌, ◌==◌, leb,
  if◌then◌else◌, unwrap_or, is_empty,
}
use line_proof.Soroban.Program.{
  Env, Program, ◌>>=◌, ◌>>◌, returns, get, set, panic, panic_if, extend_ttl, checked,
}
use line_proof.Queue.Types.{
  AdvancementRule, fifo, priority_tier, verifiable_randomness, QueueStatus, QueueConfig, Position,
  PositionStatus, Kind, next_id_key, idx_key, schema, ttl_threshold, ttl_extend_to, is_closed,
  is_enrollment_closed, is_advancement_active,
}
use line_proof.Queue.Storage.{
  emit, require_admin, get_config_internal, store_config, store_position, get_position,
}

-- The body of the loop on a position that exists: the ids advanced so far, with this one appended if
-- it was pending. The `skipped` vector is filled and never read, so only its events are kept.
abbrev pub visit : Env → ℕ → ℕ → List ℕ → PositionStatus → Position → Program schema (List ℕ)
visit env admin id done PositionStatus.pending position = do
  store_position id
      (record position { status = PositionStatus.advanced; advanced_at = some env.timestamp })
  returns (done ++ id ∷ [])
visit env admin id done PositionStatus.cancelled position = do
  emit Kind.skipped id admin env.timestamp
  returns done
visit env admin id done _ position = returns done

abbrev visit_found : Env → ℕ → ℕ → List ℕ → Option Position → Program schema (Option (ℕ × List ℕ))
visit_found env admin idx done none = returns none
visit_found env admin idx done (some position) = do
  done' ← visit env admin (idx + 1) done position.status position
  idx' ← checked 32 (idx + 1)
  returns (some (idx', done'))

-- One round of the loop from cursor `idx`; `none` is its `break`.
abbrev pub round : Env → ℕ → ℕ → ℕ → List ℕ → Program schema (Option (ℕ × List ℕ))
round env admin total_created idx done =
    if leb total_created idx
    then returns none
    else do id ← checked 32 (idx + 1); found ← get_position id; visit_found env admin idx done found

-- `for _ in 0..batch_size`, with the rounds left, the cursor and the ids advanced.

abbrev pub scan : ℕ → Env → ℕ → ℕ → ℕ → List ℕ → Program schema (ℕ × List ℕ)
scan zero env admin total_created idx done = returns (idx, done)
scan (suc rounds) env admin total_created idx done =
    round env admin total_created idx done >>= λ next. elim next [
      | none ↦ returns (idx, done)
      | some (idx', done') ↦ scan rounds env admin total_created idx' done'
    ]

abbrev pub announce : Env → ℕ → List ℕ → Program schema (Unit {0})
announce env admin [] = returns tt
announce env admin (id ∷ ids) = do emit Kind.advanced id admin env.timestamp; announce env admin ids

-- The transition to `AdvancementActive`, if a position was advanced.
abbrev pub activate : QueueConfig → List ℕ → Program schema (Unit {0})
activate config done =
    if not (is_empty done) && is_enrollment_closed config.status
    then store_config (record config { status = QueueStatus.advancement_active })
    else returns tt

-- What follows the loop.
abbrev pub conclude : Env → ℕ → QueueConfig → ℕ × List ℕ → Program schema (List ℕ)
conclude env admin config (idx, done) = do
  set idx_key idx
  extend_ttl idx_key ttl_threshold ttl_extend_to
  activate config done
  announce env admin done
  returns done

-- The branch of `AdvancementRule::Fifo`.
unfoldable pub advance_fifo : Env → ℕ → ℕ → QueueConfig → Program schema (List ℕ)
advance_fifo env admin batch_size config = do
  stored_idx ← get idx_key
  stored_id ← get next_id_key
  outcome ← scan batch_size env admin (unwrap_or stored_id 1 - 1) (unwrap_or stored_idx 0) []
  conclude env admin config outcome

abbrev advance_by : AdvancementRule → Env → ℕ → ℕ → QueueConfig → Program schema (List ℕ)
advance_by fifo env admin batch_size config = advance_fifo env admin batch_size config
advance_by priority_tier env admin batch_size config = panic "priority_tier_not_implemented"
advance_by verifiable_randomness env admin batch_size config = panic "vrf_not_implemented"

unfoldable pub advance : Env → ℕ → ℕ → Program schema (List ℕ)
advance env admin batch_size = do
  panic_if (batch_size == 0) "batch_size_must_be_positive"
  config ← get_config_internal
  require_admin env config admin
  panic_if (is_closed config.status) "queue is closed"
  panic_if (not (is_enrollment_closed config.status || is_advancement_active config.status))
      "enrollment must be closed before advancing"
  advance_by config.advancement_rule env admin batch_size config
