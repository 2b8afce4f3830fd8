-- ===== src/Queue/Invariant.antt =====
-- The well-formedness of a queue contract's storage.
use line_proof.Base.{
  ℕ, zero, suc, ◌+◌, ◌-◌, ◌^◌, ◌≤◌, ◌<◌, ◌≡◌, ◌≢◌, Option, none, some, true, false, arith,
  unwrap_or, if◌then◌else◌, ℕ_discrete, subst, sym,
}
use line_proof.Soroban.Schema.{Observed}
use line_proof.Queue.Types.{
  QueueConfig, Position, PositionStatus, schema, config_key, next_id_key, active_key, idx_key,
  pos_key, is_pending, is_cancelled, is_draft, is_enrollment_open,
}

abbrev pub position : Observed schema → ℕ → Option Position
position s i = s.slots (pos_key i)

abbrev pub next_id : Observed schema → ℕ
next_id s = unwrap_or (s.slots next_id_key) 1

-- The number of positions ever created: their ids are 1 up to it.
abbrev pub total : Observed schema → ℕ
total s = next_id s - 1

abbrev pub active_count : Observed schema → ℕ
active_count s = unwrap_or (s.slots active_key) 0

abbrev pub cursor : Observed schema → ℕ
cursor s = unwrap_or (s.slots idx_key) 0

-- A position that is not cancelled occupies a slot.
abbrev pub weight : Option Position → ℕ
weight none = 0
weight (some p) = if is_cancelled p.status then 0 else 1

-- The slots occupied by the positions 1 up to `n`.
unfoldable pub occupied : (ℕ → Option Position) → ℕ → ℕ
occupied m zero = 0
occupied m (suc n) = occupied m n + weight (m (suc n))

pub record IsValid (s : Observed schema) : Type 0 where
  pub started : 1 ≤ next_id s
  pub word : next_id s < 2 ^ 32
  pub filled : (i : ℕ) → i < total s → position s (suc i) ≢ none
  pub unfilled : (i : ℕ) → total s ≤ i → position s (suc i) ≡ none
  pub no_zero : position s 0 ≡ none
  pub numbered : (i : ℕ) (p : Position) → position s i ≡ some p → p.position_id ≡ i
  pub counted : active_count s ≡ occupied (position s) (total s)
  pub capped : (c : QueueConfig) → s.slots config_key ≡ some c → active_count s ≤ c.max_positions
  pub behind : cursor s ≤ total s
  pub passed :
      (i : ℕ) (p : Position)
      → i < cursor s
      → position s (suc i) ≡ some p
      → is_pending p.status ≡ false
  pub served :
      (i : ℕ) (p : Position)
      → position s i ≡ some p
      → p.status ≡ PositionStatus.advanced
      → i ≤ cursor s
  pub unserved :
      (c : QueueConfig)
      → s.slots config_key ≡ some c
      → is_enrollment_open c.status ≡ true
      → cursor s ≡ 0
  pub unopened :
      (c : QueueConfig)
      → s.slots config_key ≡ some c
      → is_draft c.status ≡ true
      → (cursor s ≡ 0) × (total s ≡ 0)

-- `occupied` reads positions 1 to `n` alone.
pub occupied-congr :
    (m m' : ℕ → Option Position) (n : ℕ)
    → ((i : ℕ) → i < n → weight (m' (suc i)) ≡ weight (m (suc i)))
    → occupied m' n ≡ occupied m n
unfolding occupied
occupied-congr m m' zero e = omega arith
occupied-congr m m' (suc n) e =
    omega (arith, occupied-congr m m' n (λ i h. e i (omega arith)), e n (omega arith))

-- Cancelling the position with id `suc j` frees one slot.
pub occupied-free :
    (m m' : ℕ → Option Position) (n j : ℕ)
    → j < n
    → weight (m (suc j)) ≡ 1
    → weight (m' (suc j)) ≡ 0
    → ((i : ℕ) → i ≢ j → weight (m' (suc i)) ≡ weight (m (suc i)))
    → occupied m' n + 1 ≡ occupied m n
unfolding occupied
occupied-free m m' zero j h a b e = absurd (omega arith)
occupied-free m m' (suc n) j h a b e = elim (ℕ_discrete j n) [
  | yes last ↦ omega (
    arith,
    occupied-congr m m' n (λ i below. e i (λ same. omega arith)),
    subst (λ i. weight (m (suc i)) ≡ 1) last a,
    subst (λ i. weight (m' (suc i)) ≡ 0) last b,
  )
  | no before ↦
      omega (arith, occupied-free m m' n j (omega arith) a b e, e n (λ same. before (sym same)))
]

-- A new position with the next id takes one slot.
pub occupied-join :
    (m m' : ℕ → Option Position) (n : ℕ)
    → 1 ≤ n
    → ((i : ℕ) → suc i < n → weight (m' (suc i)) ≡ weight (m (suc i)))
    → weight (m' n) ≡ 1
    → occupied m' (n + 1 - 1) ≡ occupied m (n - 1) + 1
unfolding occupied
occupied-join m m' zero h e w = absurd (omega arith)
occupied-join m m' (suc k) h e w =
    let up : suc k + 1 - 1 ≡ suc k = omega arith in
    let down : suc k - 1 ≡ k = omega arith in
    rw (up, down) (omega (arith, occupied-congr m m' k (λ i b. e i (omega arith)), w))

-- The next id is free.
pub next_id-free : (s : Observed schema) → IsValid s → position s (next_id s) ≡ none
next_id-free s v =
    subst (λ i. position s i ≡ none) (omega (arith, v.started)) (v.unfilled (total s) (omega arith))

occupied-bound : (m : ℕ → Option Position) (n : ℕ) → occupied m n ≤ n
unfolding occupied
occupied-bound m zero = omega arith
occupied-bound m (suc n) =
    let one : weight (m (suc n)) ≤ 1 = ground arith in omega (arith, occupied-bound m n, one)

-- The active count has room for one more.
pub active_count-room : (s : Observed schema) → IsValid s → active_count s + 1 < 2 ^ 32
active_count-room s v =
    omega (arith, v.counted, occupied-bound (position s) (total s), v.word, v.started)
