-- ===== src/Backend/Queues/Histories.antt =====
-- The stored queues along the calls of the queue service.
use line_proof.Base.{ℕ, ◌≡◌, refl, sym, ◌∙◌, subst, none, some, List, [], ◌∷◌, arith}
use line_proof.Backend.Status.{enrollment_open, enrollment_closed, closed}
use line_proof.Backend.Queues.{
  Queue, Payload, Store, returned, get, set, get_queue_by_id, new_queue, create_queue,
  advance_queue, close_queue, open_enrollment, close_enrollment, Call, create_queue_call,
  advance_queue_call, close_queue_call, open_enrollment_call, close_enrollment_call, invoke,
}
use line_proof.Backend.Queues.Keyed.{IsKeyed, get-set, set-IsKeyed}
use line_proof.Backend.Queues.Proceeds.{
  Proceeds, Proceeds-same, Carries, persist_transition-Carries, then_advance-Carries,
  with_queue-Carries, dropped-ok,
}

create_queue-ok :
    (now : ℕ) (payload : Payload) (q : Queue) (s t : Store)
    → create_queue now payload s ≡ returned (q, t)
    → (get_queue_by_id payload.slug s.queues ≡ none)
      × (t.queues ≡ set (new_queue now payload) s.queues)
unfolding create_queue
create_queue-ok now payload q s t h = ground arith

-- An id that finds no queue is no queue's id.
unfound : (id : ℕ) (qs : List Queue) → get_queue_by_id id qs ≡ none → get id qs ≡ none
unfound id [] h = refl
unfound id (q ∷ qs) h = ground (arith, unfound id qs)

created-Carries :
    (queue : Queue) (s t : Store)
    → IsKeyed s.queues
    → get queue.id s.queues ≡ none
    → t.queues ≡ set queue s.queues
    → Carries s t
created-Carries queue s t k free after = record {
  keyed = subst IsKeyed (sym after) (set-IsKeyed queue s.queues k);
  kept = λ id q at. (q, ground (arith, after, get-set id queue s.queues), Proceeds-same q);
}

invoke-Carries :
    (call : Call) (s t : Store) → IsKeyed s.queues → invoke call s ≡ returned t → Carries s t
unfolding invoke advance_queue close_queue open_enrollment close_enrollment
invoke-Carries (create_queue_call now payload) s t k h =
    let (q, ran) = dropped-ok (create_queue now payload s) t h in
    let (free, after) = create_queue-ok now payload q s t ran in
    created-Carries (new_queue now payload) s t k (unfound payload.slug s.queues free) after
invoke-Carries (advance_queue_call id batch_size) s t k h =
    let (r, ran) = dropped-ok (advance_queue id batch_size s) t h in
    with_queue-Carries id _ r s t k (λ q q' at h'. then_advance-Carries q q' batch_size s t k at h')
      ran
invoke-Carries (close_queue_call id) s t k h =
    let (r, ran) = dropped-ok (close_queue id s) t h in
    with_queue-Carries id _ r s t k
      (λ q q' at h'. persist_transition-Carries q q' closed s t k at h') ran
invoke-Carries (open_enrollment_call id) s t k h =
    let (r, ran) = dropped-ok (open_enrollment id s) t h in
    with_queue-Carries id _ r s t k
      (λ q q' at h'. persist_transition-Carries q q' enrollment_open s t k at h') ran
invoke-Carries (close_enrollment_call id) s t k h =
    let (r, ran) = dropped-ok (close_enrollment id s) t h in
    with_queue-Carries id _ r s t k
      (λ q q' at h'. persist_transition-Carries q q' enrollment_closed s t k at h') ran

-- From a store with unique ids, a call that returns leaves unique ids and loses no queue: under its
-- id is the same queue with the same slug and number enrolled; its number advanced has not gone down,
-- and is unchanged or within the number enrolled; and its status is the same or one that the
-- transition table allows.
pub invoke-Proceeds :
    (call : Call) (s t : Store) (id : ℕ) (q : Queue)
    → IsKeyed s.queues
    → invoke call s ≡ returned t
    → get id s.queues ≡ some q
    → IsKeyed t.queues × ((q' : Queue) × (get id t.queues ≡ some q') × Proceeds q q')
invoke-Proceeds call s t id q k h at =
    let c = invoke-Carries call s t k h in (c.keyed, c.kept id q at)

-- What calls that return lead to.
pub data Later (s : Store) : Store → Type 0 where
  now : Later s s
  then_call : {t u : Store} (call : Call) → Later s t → invoke call t ≡ returned u → Later s u

Later-Idle :
    (id : ℕ) (s u : Store) (q : Queue)
    → IsKeyed s.queues
    → get id s.queues ≡ some q
    → q.enrolled ≡ 0
    → q.advanced ≡ 0
    → Later s u
    → IsKeyed u.queues
      × ((q' : Queue) × (get id u.queues ≡ some q') × (q'.enrolled ≡ 0) × (q'.advanced ≡ 0))
Later-Idle id s _ q k at none_in none_out now = (k, (q, at, none_in, none_out))
Later-Idle id s _ q k at none_in none_out (then_call {t} {u} call before ran) =
    let (kt, (p, there, p_in, p_out)) = Later-Idle id s t q k at none_in none_out before in
    let (ku, (p', stored, proceeds)) = invoke-Proceeds call t u id p kt ran there in
    (ku, (p', stored, proceeds.same_enrolled ∙ p_in, ground (arith, proceeds.within, p_in, p_out)))

-- From a store with unique ids, a queue that `create_queue` has returned is stored in every later
-- history of the service with nobody enrolled and nobody advanced, whatever batches are asked for:
-- the service never counts an enrollment.
pub created-Later :
    (time : ℕ) (payload : Payload) (s t u : Store) (q : Queue)
    → IsKeyed s.queues
    → create_queue time payload s ≡ returned (q, t)
    → Later t u
    → (q' : Queue) × (get payload.slug u.queues ≡ some q') × (q'.enrolled ≡ 0) × (q'.advanced ≡ 0)
created-Later time payload s t u q k h later =
    let (free, after) = create_queue-ok time payload q s t h in
    let fresh : Queue = new_queue time payload in
    let keyed = (created-Carries fresh s t k (unfound payload.slug s.queues free) after).keyed in
    (Later-Idle payload.slug t u fresh keyed
      (ground (arith, after, get-set payload.slug fresh s.queues)) refl refl later).1
