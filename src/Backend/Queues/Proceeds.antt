-- ===== src/Backend/Queues/Proceeds.antt =====
-- What a call of the queue service may do to a stored queue.
use line_proof.Base.{
  ℕ, ◌≤◌, ◌≡◌, refl, sym, ap, ◌∙◌, subst, true, Option, some, arith, ◌==◌, ◌⊎◌, if◌then◌else◌, inl,
  inr, ℕ_discrete, Option-cases,
}
use line_proof.Backend.Status.{
  QueueStatus, draft, enrollment_open, enrollment_closed, advancement_active, closed,
  transition_queue_status,
}
use line_proof.Backend.Queues.{
  Queue, Store, Try, returned, threw, get, set, get_queue_by_id, persist_transition, count_up,
  found, with_queue, then_advance, dropped,
}
use line_proof.Backend.Queues.Keyed.{IsKeyed, get-set, set-IsKeyed, get_queue_by_id-get}

-- `q'` is the same queue as `q`, no further back.
pub record Proceeds (q q' : Queue) : Type 0 where
  pub same_id : q'.id ≡ q.id
  pub same_slug : q'.slug ≡ q.slug
  pub same_enrolled : q'.enrolled ≡ q.enrolled
  pub forward : q.advanced ≤ q'.advanced
  pub within : (q'.advanced ≡ q.advanced) ⊎ (q'.advanced ≤ q.enrolled)
  pub allowed : transition_queue_status q.status q'.status ≡ true

transition-same : (a : QueueStatus) → transition_queue_status a a ≡ true
unfolding transition_queue_status
transition-same draft = refl
transition-same enrollment_open = refl
transition-same enrollment_closed = refl
transition-same advancement_active = refl
transition-same closed = refl

persist_transition-ok :
    (q q' : Queue) (next : QueueStatus) (s t : Store)
    → persist_transition q next s ≡ returned (q', t)
    → (transition_queue_status q.status next ≡ true)
      × (q' ≡ record q { status = next })
      × (t.queues ≡ set q' s.queues)
persist_transition-ok q q' next s t h = ground arith

pub Proceeds-same : (q : Queue) → Proceeds q q
Proceeds-same q = record {
  same_id = refl;
  same_slug = refl;
  same_enrolled = refl;
  forward = omega arith;
  within = inl refl;
  allowed = transition-same q.status;
}

moved-Proceeds :
    (q : Queue) (next : QueueStatus)
    → transition_queue_status q.status next ≡ true
    → Proceeds q (record q { status = next })
moved-Proceeds q next ok = record {
  same_id = refl;
  same_slug = refl;
  same_enrolled = refl;
  forward = omega arith;
  within = inl refl;
  allowed = ok;
}

counted-Proceeds :
    (q : Queue) (next : QueueStatus) (batch_size : ℕ)
    → transition_queue_status q.status next ≡ true
    → Proceeds q (count_up batch_size (record q { status = next }))
counted-Proceeds q next batch_size ok = record {
  same_id = refl;
  same_slug = refl;
  same_enrolled = refl;
  forward = omega arith;
  within = ground arith;
  allowed = ok;
}

-- Every queue stored in `s` is stored in `t`, no further back, and ids are unique there.
pub record Carries (s t : Store) : Type 0 where
  pub keyed : IsKeyed t.queues
  pub kept :
      (id : ℕ) (q : Queue)
      → get id s.queues ≡ some q
      → (q' : Queue) × (get id t.queues ≡ some q') × Proceeds q q'

Carries-same : (s t : Store) → IsKeyed s.queues → t.queues ≡ s.queues → Carries s t
Carries-same s t k e = record {
  keyed = subst IsKeyed (sym e) k;
  kept = λ id q at. (q, ap (get id) e ∙ at, Proceeds-same q);
}

-- Storing what proceeds from a stored queue.
saved-Carries :
    (s t : Store) (q q' : Queue)
    → IsKeyed s.queues
    → get q.id s.queues ≡ some q
    → Proceeds q q'
    → IsKeyed t.queues
    → ((id : ℕ) → get id t.queues ≡ (if q.id == id then some q' else get id s.queues))
    → Carries s t
saved-Carries s t q q' k at proceeds k' e = record {
  keyed = k';
  kept = λ id p there. elim (ℕ_discrete q.id id) [
    | yes same ↦
        let is_q : q ≡ p = ground arith in
        (q', ground (arith, e id), subst (λ x. Proceeds x q') is_q proceeds)
    | no other ↦ (p, ground (arith, e id), Proceeds-same p)
  ];
}

pub persist_transition-Carries :
    (q q' : Queue) (next : QueueStatus) (s t : Store)
    → IsKeyed s.queues
    → get q.id s.queues ≡ some q
    → persist_transition q next s ≡ returned (q', t)
    → Carries s t
persist_transition-Carries q q' next s t k at h =
    let (ok, is_q', after) = persist_transition-ok q q' next s t h in
    saved-Carries s t q (record q { status = next }) k at (moved-Proceeds q next ok)
      (subst IsKeyed (sym after) (set-IsKeyed q' s.queues k))
      (λ id. ground (arith, after, is_q', get-set id q' s.queues))

then_advance-ok :
    (q q' : Queue) (batch_size : ℕ) (s t : Store)
    → then_advance batch_size (persist_transition q advancement_active s) ≡ returned (q', t)
    → (transition_queue_status q.status advancement_active ≡ true)
      × (q' ≡ count_up batch_size (record q { status = advancement_active }))
      × (t.queues ≡ set q' (set (record q { status = advancement_active }) s.queues))
then_advance-ok q q' batch_size s t h = ground arith

pub then_advance-Carries :
    (q q' : Queue) (batch_size : ℕ) (s t : Store)
    → IsKeyed s.queues
    → get q.id s.queues ≡ some q
    → then_advance batch_size (persist_transition q advancement_active s) ≡ returned (q', t)
    → Carries s t
then_advance-Carries q q' batch_size s t k at h =
    let (ok, is_q', after) = then_advance-ok q q' batch_size s t h in
    let moved : Queue = record q { status = advancement_active } in
    saved-Carries s t q (count_up batch_size moved) k at
      (counted-Proceeds q advancement_active batch_size ok)
      (subst IsKeyed (sym after)
        (set-IsKeyed q' (set moved s.queues) (set-IsKeyed moved s.queues k)))
      (λ id.
        ground (arith, after, is_q', get-set id q' (set moved s.queues), get-set id moved s.queues))

found-ok :
    (o : Try (Queue × Store)) (r : Option Queue) (t : Store)
    → found o ≡ returned (r, t)
    → (q : Queue) × (o ≡ returned (q, t))
found-ok (returned (q, u)) r t h = (q, cc)
found-ok (threw status) r t h = absurd (cc)

-- A call on the queue that an id or a slug names.
pub with_queue-Carries :
    (id : ℕ) (act : Queue → Try (Queue × Store)) (r : Option Queue) (s t : Store)
    → IsKeyed s.queues
    → ((q q' : Queue) → get q.id s.queues ≡ some q → act q ≡ returned (q', t) → Carries s t)
    → with_queue (get_queue_by_id id s.queues) act s ≡ returned (r, t)
    → Carries s t
with_queue-Carries id act r s t k each h = elim (Option-cases (get_queue_by_id id s.queues)) [
  | inl missing ↦ Carries-same s t k (ground (arith, missing))
  | inr (q, at) ↦
      let (q', ran) : (q' : Queue) × (act q ≡ returned (q', t)) =
        found-ok (act q) r t (subst (λ o. with_queue o act s ≡ returned (r, t)) at h) in
      each q q' (get_queue_by_id-get id q s.queues k at) ran
]

pub dropped-ok :
    {A : Type 0} (r : Try (A × Store)) (t : Store)
    → dropped r ≡ returned t
    → (a : A) × (r ≡ returned (a, t))
dropped-ok (returned (a, u)) t h = (a, cc)
dropped-ok (threw status) t h = absurd (cc)
