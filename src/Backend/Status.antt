-- ===== src/Backend/Status.antt =====
-- The statuses of a queue in the backend, backend/src/schemas/queueStatus.ts.
use line_proof.Base.{Bool, true, false, ◌||◌, List, [], ◌∷◌, if◌then◌else◌}

pub data QueueStatus : Type 0 where
  draft enrollment_open enrollment_closed advancement_active closed : QueueStatus

-- `===` on statuses.
abbrev pub same_status : QueueStatus → QueueStatus → Bool
same_status draft draft = true
same_status enrollment_open enrollment_open = true
same_status enrollment_closed enrollment_closed = true
same_status advancement_active advancement_active = true
same_status closed closed = true
same_status _ _ = false

abbrev pub valid_transitions : QueueStatus → List QueueStatus
valid_transitions draft = enrollment_open ∷ closed ∷ []
valid_transitions enrollment_open = enrollment_closed ∷ closed ∷ []
valid_transitions enrollment_closed = advancement_active ∷ closed ∷ []
valid_transitions advancement_active = closed ∷ []
valid_transitions closed = []

-- `includes`
abbrev includes : QueueStatus → List QueueStatus → Bool
includes status [] = false
includes status (x ∷ xs) = same_status x status || includes status xs

-- Whether `transitionQueueStatus` returns; it throws otherwise.
unfoldable pub transition_queue_status : QueueStatus → QueueStatus → Bool
transition_queue_status current next =
    if same_status current next then true else includes next (valid_transitions current)
