-- ===== src/Backend/Queues.antt =====
-- The queue service, backend/src/services/queueService.ts, over the in-memory store of
-- backend/src/storage/memoryAdapter.ts. Ids and slugs are only compared, so they are numbers; a time
-- is the number that `new Date()` reads. Every queue is stored under its own id, so the `Map` of the
-- namespace `queues` is the list of its values in the order of their insertion.
pub mod Keyed
pub mod Proceeds
pub mod Histories
use line_proof.Base.{
  ℕ, ◌+◌, ◌-◌, not, ◌||◌, Bool, true, false, Option, none, some, List, [], ◌∷◌, ◌++◌, ◌==◌, String,
  if◌then◌else◌, unwrap_or, min, is_some,
}
use line_proof.Backend.Status.{
  QueueStatus, draft, enrollment_open, enrollment_closed, advancement_active, closed, same_status,
  transition_queue_status,
}

pub data AdvancementRule : Type 0 where
  fifo priority verifiable_randomness : AdvancementRule

pub record Queue : Type 0 where
  pub id : ℕ
  pub name : String
  pub slug : ℕ
  pub description : String
  pub max_positions : ℕ
  pub enrolled : ℕ
  pub advanced : ℕ
  pub status : QueueStatus
  pub advancement_rule : AdvancementRule
  pub escrow_asset : String
  pub escrow_amount : ℕ
  pub created_at : ℕ

-- The field `escrowRequired` is left out, which the service does not read.
pub record Payload : Type 0 where
  pub name : String
  pub slug : ℕ
  pub max_positions : ℕ
  pub advancement_rule : Option AdvancementRule
  pub description : Option String

-- What `serviceEmitter` is told.
pub data ServiceEvent : Type 0 where
  queue_created : Queue → ServiceEvent
  queue_status_changed : Queue → ServiceEvent
  queue_advanced : Queue → ServiceEvent

pub record Store : Type 0 where
  pub queues : List Queue
  pub emitted : List ServiceEvent

-- A call returns a value, or throws an error with an HTTP status.
pub data Try (A : Type 0) : Type 0 where
  returned : A → Try A
  threw : ℕ → Try A

-- `store.get(NS, id)`
abbrev pub get : ℕ → List Queue → Option Queue
get id [] = none
get id (q ∷ qs) = let rest = get id qs in if q.id == id then some q else rest

-- `store.set(NS, queue.id, queue)`
abbrev pub set : Queue → List Queue → List Queue
set queue [] = queue ∷ []
set queue (q ∷ qs) = let rest = set queue qs in if q.id == queue.id then queue ∷ qs else q ∷ rest

abbrev pub get_queue_by_id : ℕ → List Queue → Option Queue
get_queue_by_id id [] = none
get_queue_by_id id (q ∷ qs) =
    let rest = get_queue_by_id id qs in if q.id == id || q.slug == id then some q else rest

-- The seeding loop of `createQueueService`.
unfoldable pub seed : List Queue → List Queue → List Queue
seed [] qs = qs
seed (fixture ∷ fixtures) qs =
    seed fixtures (if is_some (get fixture.id qs) then qs else set fixture qs)

abbrev pub emit : ServiceEvent → Store → Store
emit event s = record s { emitted = s.emitted ++ event ∷ [] }

abbrev pub save : Queue → Store → Store
save queue s = record s { queues = set queue s.queues }

abbrev pub persist_transition : Queue → QueueStatus → Store → Try (Queue × Store)
persist_transition queue next s =
    if not (transition_queue_status queue.status next)
    then threw 409
    else let moved = record queue { status = next } in
      returned (
        moved,
        (if same_status queue.status next
            then save moved s
            else emit (queue_status_changed moved) (save moved s)),
      )

abbrev pub new_queue : ℕ → Payload → Queue
new_queue now payload = record {
  id = payload.slug;
  name = payload.name;
  slug = payload.slug;
  description = unwrap_or payload.description "New queue";
  max_positions = payload.max_positions;
  enrolled = 0;
  advanced = 0;
  status = draft;
  advancement_rule = unwrap_or payload.advancement_rule fifo;
  escrow_asset = "XLM";
  escrow_amount = 0;
  created_at = now;
}

unfoldable pub create_queue : ℕ → Payload → Store → Try (Queue × Store)
create_queue now payload s =
    if is_some (get_queue_by_id payload.slug s.queues)
    then threw 409
    else returned (
      new_queue now payload,
      emit (queue_created (new_queue now payload)) (save (new_queue now payload) s),
    )

-- `Math.max(0, Math.min(batchSize, queue.enrolled - queue.advanced))` is the minimum with the
-- truncated difference.
abbrev pub count_up : ℕ → Queue → Queue
count_up batch_size queue = record queue {
  advanced = queue.advanced + min batch_size (queue.enrolled - queue.advanced);
}

abbrev pub advance_found : ℕ → Queue × Store → Queue × Store
advance_found batch_size (queue, s) =
    let served = count_up batch_size queue in (served, emit (queue_advanced served) (save served s))

abbrev pub found : Try (Queue × Store) → Try (Option Queue × Store)
found (returned (queue, s)) = returned (some queue, s)
found (threw status) = threw status

-- A queue that is not found is `undefined`.
abbrev pub with_queue :
    Option Queue → (Queue → Try (Queue × Store)) → Store → Try (Option Queue × Store)
with_queue none act s = returned (none, s)
with_queue (some queue) act s = found (act queue)

abbrev pub then_advance : ℕ → Try (Queue × Store) → Try (Queue × Store)
then_advance batch_size (returned r) = returned (advance_found batch_size r)
then_advance batch_size (threw status) = threw status

unfoldable pub advance_queue : ℕ → ℕ → Store → Try (Option Queue × Store)
advance_queue id batch_size s =
    with_queue (get_queue_by_id id s.queues)
      (λ queue. then_advance batch_size (persist_transition queue advancement_active s)) s

unfoldable pub close_queue : ℕ → Store → Try (Option Queue × Store)
close_queue id s =
    with_queue (get_queue_by_id id s.queues) (λ queue. persist_transition queue closed s) s

unfoldable pub open_enrollment : ℕ → Store → Try (Option Queue × Store)
open_enrollment id s =
    with_queue (get_queue_by_id id s.queues) (λ queue. persist_transition queue enrollment_open s) s

unfoldable pub close_enrollment : ℕ → Store → Try (Option Queue × Store)
close_enrollment id s =
    with_queue (get_queue_by_id id s.queues) (λ queue. persist_transition queue enrollment_closed s)
      s

-- The functions of the service that change state; the results are dropped.
pub data Call : Type 0 where
  create_queue_call : ℕ → Payload → Call
  advance_queue_call : ℕ → ℕ → Call
  close_queue_call open_enrollment_call close_enrollment_call : ℕ → Call

abbrev pub dropped : {A : Type 0} → Try (A × Store) → Try Store
dropped (returned (a, t)) = returned t
dropped (threw status) = threw status

unfoldable pub invoke : Call → Store → Try Store
invoke (create_queue_call now payload) s = dropped (create_queue now payload s)
invoke (advance_queue_call id batch_size) s = dropped (advance_queue id batch_size s)
invoke (close_queue_call id) s = dropped (close_queue id s)
invoke (open_enrollment_call id) s = dropped (open_enrollment id s)
invoke (close_enrollment_call id) s = dropped (close_enrollment id s)
