-- ===== src/Backend/Queues/Keyed.antt =====
-- The list of queues as a map from ids.
use line_proof.Base.{
  ℕ, ◌≡◌, refl, subst, ◌||◌, none, some, List, [], ◌∷◌, arith, ◌==◌, if◌then◌else◌, Bool-cases, inl,
  inr, ℕ_discrete,
}
use line_proof.Backend.Queues.{Queue, get, set, get_queue_by_id}

-- No two queues have the same id.
abbrev pub IsKeyed : List Queue → Type 0
IsKeyed [] = Unit
IsKeyed (q ∷ qs) = (get q.id qs ≡ none) × IsKeyed qs

pub get-set :
    (id : ℕ) (queue : Queue) (qs : List Queue)
    → get id (set queue qs) ≡ (if queue.id == id then some queue else get id qs)
get-set id queue [] = ground arith
get-set id queue (q ∷ qs) = ground (arith, get-set id queue qs)

pub set-IsKeyed : (queue : Queue) (qs : List Queue) → IsKeyed qs → IsKeyed (set queue qs)
set-IsKeyed queue [] k = (refl, tt)
set-IsKeyed queue (q ∷ qs) k = elim (ℕ_discrete q.id queue.id) [
  | yes same ↦
      subst IsKeyed {x = queue ∷ qs} (ground arith) (subst (λ i. get i qs ≡ none) same k.0, k.1)
  | no other ↦
      subst IsKeyed {x = q ∷ set queue qs} (ground arith)
        (ground (arith, get-set q.id queue qs, k.0), set-IsKeyed queue qs k.1)
]

-- A queue found by its id or its slug is the one stored under its id.
pub get_queue_by_id-get :
    (id : ℕ) (q : Queue) (qs : List Queue)
    → IsKeyed qs
    → get_queue_by_id id qs ≡ some q
    → get q.id qs ≡ some q
get_queue_by_id-get id q [] k h = absurd (cc)
get_queue_by_id-get id q (x ∷ xs) k h = elim (Bool-cases (x.id == id || x.slug == id)) [
  | inl here ↦ ground arith
  | inr there ↦ ground (arith, get_queue_by_id-get id q xs k.1 (ground arith), k.0)
]
