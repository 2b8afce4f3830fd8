-- ===== src/Backend/Tests.antt =====
-- Runs of the backend's services, and what the theorems say of them.
mod Later
use line_proof.Base.{
  ℕ, ◌+◌, ◌-◌, ◌*◌, ◌^◌, ◌≤◌, ◌<◌, ◌≡◌, ◌↔◌, ◌⊎◌, refl, true, false, Option, none, some, List, [],
  ◌∷◌, arith, length, ◌==◌, if◌then◌else◌, contains, IsDistinct,
}
use mathlib.Core.List.{Memᴰ}
use line_proof.Queue.Types
use line_proof.Queue.Authority.{Follows}
use line_proof.Backend.Status.{QueueStatus, transition_queue_status}
use line_proof.Backend.Enrollments
use line_proof.Backend.Enrollments.{
  records, enrolled, is_taken, live, enroll_identity, cancel_enrollment, get_enrollments_by_queue,
}
use line_proof.Backend.Enrollments.Roll.{identities, IsCurrent, Reach-roll}
use line_proof.Backend.Queues
use line_proof.Backend.Queues.{
  Queue, Payload, returned, new_queue, create_queue, open_enrollment, close_enrollment,
  advance_queue, get, open_enrollment_call, close_enrollment_call, advance_queue_call, invoke,
}
use line_proof.Backend.Queues.Keyed.{IsKeyed}
use line_proof.Backend.Queues.Proceeds.{Proceeds}
use line_proof.Backend.Queues.Histories.{now, then_call, invoke-Proceeds, created-Later}
use line_proof.Backend.Limiter
use line_proof.Backend.Limiter.{RateLimitOptions, rate_limiter}
use line_proof.Backend.Limiter.Bound.{empty, Passed, none_yet, serves, tally, Passed-bound}
use line_proof.Backend.Indexer
use line_proof.Backend.Indexer.{RawEvent, Event, poll, cursor, get_indexed_events}
use line_proof.Backend.Indexer.Poll.{accepted, find, last_of, largest, poll-indexes}
use line_proof.Backend.Webhooks.{Delivery, send_with_retry, is_success}
use line_proof.Backend.Webhooks.Retries.{send_with_retry-settles}

-- 21 and 22 enroll in queue 3, and 21 cancels.
abbrev two_in : Enrollments.Store
two_in = (enroll_identity 51 3 22 (enroll_identity 50 3 21 Enrollments.empty).1).1

abbrev one_left : Enrollments.Store
one_left = (cancel_enrollment 3 21 two_in).1

one_left_Reach : Enrollments.Reach one_left
one_left_Reach =
    Enrollments.cancels 3 21
      (Enrollments.enrolls 51 3 22 (Enrollments.enrolls 50 3 21 Enrollments.fresh))

one_left_roll : enrolled one_left 3 ≡ 22 ∷ []
unfolding enroll_identity cancel_enrollment
one_left_roll = refl

Reach-roll_example :
    (identities (get_enrollments_by_queue 3 one_left) ≡ enrolled one_left 3)
    × ((r : Enrollments.EnrollmentRecord)
        → Memᴰ r (get_enrollments_by_queue 3 one_left)
        → IsCurrent 3 one_left r)
    × IsDistinct (enrolled one_left 3)
    × ((i : ℕ) → contains i (enrolled one_left 3) ≡ is_taken 3 (records one_left i))
    × ((i : ℕ) → length (live 3 (records one_left i)) ≤ 1)
Reach-roll_example = Reach-roll one_left 3 one_left_Reach

abbrev payload : Payload
payload = record {
  name = "Sneaker Drop";
  slug = 5;
  max_positions = 250;
  advancement_rule = none;
  description = none;
}

abbrev no_queues : Queues.Store
no_queues = record { queues = []; emitted = [] }

abbrev created : Queues.Store
created = record {
  queues = new_queue 50 payload ∷ [];
  emitted = Queues.queue_created (new_queue 50 payload) ∷ [];
}

created_Step : create_queue 50 payload no_queues ≡ returned (new_queue 50 payload, created)
unfolding create_queue
created_Step = refl

abbrev opened_queue : Queue
opened_queue = record (new_queue 50 payload) { status = QueueStatus.enrollment_open }

abbrev opened : Queues.Store
opened = record {
  queues = opened_queue ∷ [];
  emitted =
      Queues.queue_created (new_queue 50 payload) ∷ Queues.queue_status_changed opened_queue ∷ [];
}

opened_Step : invoke (open_enrollment_call 5) created ≡ returned opened
unfolding invoke open_enrollment transition_queue_status
opened_Step = refl

invoke-Proceeds_example :
    IsKeyed opened.queues
    × ((q' : Queue) × (get 5 opened.queues ≡ some q') × Proceeds (new_queue 50 payload) q')
invoke-Proceeds_example =
    invoke-Proceeds (open_enrollment_call 5) created opened 5 (new_queue 50 payload) (refl, tt)
      opened_Step refl

created-Later_example :
    (q' : Queue) × (get 5 opened.queues ≡ some q') × (q'.enrolled ≡ 0) × (q'.advanced ≡ 0)
created-Later_example =
    created-Later 50 payload no_queues created opened (new_queue 50 payload) tt created_Step
      (then_call (open_enrollment_call 5) now opened_Step)

-- Two requests a minute, and three let through in one window: the counter of the first request is
-- still in use when the second one opens the window, and expires within it.
abbrev options : RateLimitOptions
options = record { max = 2; window_ms = 60_000 }

abbrev one_request : Limiter.Store
one_request = (rate_limiter options 10 12 7 empty).1

abbrev two_requests : Limiter.Store
two_requests = (rate_limiter options 60_011 60_011 7 one_request).1

abbrev three_requests : Limiter.Store
three_requests = (rate_limiter options 60_020 60_020 7 two_requests).1

abbrev four_requests : Limiter.Store
four_requests = (rate_limiter options 60_030 60_030 7 three_requests).1

abbrev let_through : ℕ
let_through =
    tally options 7
      (tally options 7
        (tally options 7 (tally options 7 0 10 12 7 empty) 60_011 60_011 7 one_request) 60_020
        60_020 7 two_requests)
      60_030 60_030 7 three_requests

four_Passed : Passed options 7 four_requests 60_030 let_through
four_Passed =
    serves 60_030 60_030 7
      (serves 60_020 60_020 7
        (serves 60_011 60_011 7 (serves 10 12 7 none_yet (omega arith) (omega arith)) (omega arith)
          (omega arith))
        (omega arith) (omega arith))
      (omega arith) (omega arith)

three_let_through : let_through ≡ 3
unfolding rate_limiter
three_let_through = refl

four_window : four_requests.windows 7 ≡ some 120_011
unfolding rate_limiter
four_window = refl

Passed-bound_example : (let_through ≤ 3) ⊎ ((120_011 < 60_030) × (let_through ≤ 4))
Passed-bound_example =
    Passed-bound options 7 60_030 let_through 120_011 four_requests four_Passed four_window

-- A batch that advances two positions publishes two events of one kind in one ledger.
abbrev advanced_event : ℕ → RawEvent
advanced_event id = record {
  namespace = some 0;
  kind = some 8;
  ledger = some 100;
  contract_id = 90;
  contents = id;
}

abbrev batch : ℕ → List RawEvent
batch from = advanced_event 1 ∷ advanced_event 2 ∷ []

abbrev unindexed : Indexer.Store
unindexed = record { events = []; last_ledger = none; running = false }

second_kept : length (get_indexed_events (poll 0 batch unindexed).1) ≡ 1
unfolding poll cursor Indexer.each Indexer.deserialize
second_kept = refl

poll-indexes_example :
    let r : List Event × Indexer.Store = poll 0 batch unindexed in
    (r.0 ≡ accepted (batch (cursor 0 unindexed)))
    × ((k : Event) → find k (get_indexed_events r.1) ≡ last_of k r.0 (find k unindexed.events))
    × (cursor 0 r.1 ≡ largest r.0 (cursor 0 unindexed))
    × (r.1.running ≡ false)
poll-indexes_example = poll-indexes 0 batch unindexed refl

-- The third attempt is answered with 204.
abbrev fetch : ℕ → Option ℕ
fetch attempt = if attempt == 3 then some 204 else none

send_with_retry-settles_example :
    (d : Delivery) × (send_with_retry 4 1000 fetch 1 ≡ some d)
    × (1 ≤ d.attempts)
    × (d.attempts ≤ 4)
    × (d.sent ≡ is_success (fetch d.attempts))
    × ((i : ℕ) → 1 ≤ i → i < d.attempts → is_success (fetch i) ≡ false)
    × ((d.sent ≡ true) ⊎ (d.attempts ≡ 4))
    × (d.waited + 1000 ≡ 1000 * 2 ^ (d.attempts - 1))
send_with_retry-settles_example = send_with_retry-settles 4 1000 fetch (omega arith)
