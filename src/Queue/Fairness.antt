-- ===== src/Queue/Fairness.antt =====
-- First in, first out: what a history of calls guarantees to the positions.
use line_proof.Base.{ℕ, suc, ◌<◌, ◌≤◌, ◌≡◌, some, false, arith, inl, inr, Option-cases}
use line_proof.Soroban.Schema.{Observed}
use line_proof.Queue.Types.{QueueConfig, Position, PositionStatus, schema, config_key, is_pending}
use line_proof.Queue.Calls.{Reach}
use line_proof.Queue.Invariant.{position, total, cursor, active_count, occupied}
use line_proof.Queue.Histories.{Reach-IsValid}

-- In every history in which the contract is not set up a second time, when a position has been
-- advanced, each position with a smaller id, from 1 on, exists and is not pending: nobody is
-- overtaken.
pub no_overtaking :
    (s : Observed schema) (i j : ℕ) (q : Position)
    → Reach 0 s
    → suc i < j
    → position s j ≡ some q
    → q.status ≡ PositionStatus.advanced
    → (p : Position) × (position s (suc i) ≡ some p) × (is_pending p.status ≡ false)
no_overtaking s i j q r before at done =
    let v = Reach-IsValid r in
    let low = v.served j q at done in
    elim (Option-cases (position s (suc i))) [
      | inl missing ↦ absurd (v.filled i (omega (arith, v.behind)) missing)
      | inr (p, there) ↦ (p, there, v.passed i p (omega arith) there)
    ]

-- In every history in which the contract is not set up a second time the stored count of active
-- positions is the number of positions that are not cancelled, it is within the capacity, and the
-- cursor is within the positions that exist.
pub capacity_kept :
    (s : Observed schema) (c : QueueConfig)
    → Reach 0 s
    → s.slots config_key ≡ some c
    → (active_count s ≡ occupied (position s) (total s))
      × (active_count s ≤ c.max_positions)
      × (cursor s ≤ total s)
capacity_kept s c r at = let v = Reach-IsValid r in (v.counted, v.capped c at, v.behind)
