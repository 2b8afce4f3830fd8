-- ===== src/Queue/Sweep.antt =====
-- What the loop of `advance` does, as one sweep over the positions between two cursors.
use line_proof.Base.{
  ℕ, zero, suc, ◌+◌, ◌≤◌, ◌<◌, ◌≡◌, refl, Option, none, some, false, Bool, ◌&&◌, List, ◌⊎◌, [], ◌∷◌,
  arith, leb, ltb, if◌then◌else◌,
}
use line_proof.Soroban.Program.{Env}
use line_proof.Queue.Types.{
  Position, PositionStatus, Kind, Event, position_event, Key, Value, config_key, next_id_key,
  active_key, idx_key, version_key, pending_key, pos_key, assign, is_pending, is_cancelled,
}

-- A pending position is advanced, any other stays as it is.
abbrev pub bump : ℕ → Option Position → Option Position
bump now none = none
bump now (some p) =
    if is_pending p.status
    then some (record p { status = PositionStatus.advanced; advanced_at = some now })
    else some p

-- The storage with the positions `idx + 1` to `idx + k` bumped.
abbrev pub swept : ℕ → ℕ → ℕ → ((j : Key) → Option (Value j)) → (j : Key) → Option (Value j)
swept now idx k m (pos_key i) =
    if ltb idx i && leb i (idx + k) then bump now (m (pos_key i)) else m (pos_key i)
swept now idx k m config_key = m config_key
swept now idx k m next_id_key = m next_id_key
swept now idx k m active_key = m active_key
swept now idx k m idx_key = m idx_key
swept now idx k m version_key = m version_key
swept now idx k m pending_key = m pending_key

abbrev pub waits : Option Position → Bool
waits none = false
waits (some p) = is_pending p.status

abbrev pub was_cancelled : Option Position → Bool
was_cancelled none = false
was_cancelled (some p) = is_cancelled p.status

-- The ids of the pending positions among `idx + 1` to `idx + k`, in order.
unfoldable pub pending_ids : (ℕ → Option Position) → ℕ → ℕ → List ℕ
pending_ids m idx zero = []
pending_ids m idx (suc k) =
    let rest = pending_ids m (idx + 1) k in if waits (m (idx + 1)) then (idx + 1) ∷ rest else rest

-- The `Skipped` events for the cancelled positions among `idx + 1` to `idx + k`.
unfoldable pub skips : Env → ℕ → (ℕ → Option Position) → ℕ → ℕ → List Event
skips env admin m idx zero = []
skips env admin m idx (suc k) =
    let rest = skips env admin m (idx + 1) k in
    if was_cancelled (m (idx + 1))
    then position_event Kind.skipped (idx + 1) admin env.timestamp ∷ rest
    else rest

pub pending_ids-congr :
    (m m' : ℕ → Option Position) (idx k : ℕ)
    → ((i : ℕ) → idx < i → m' i ≡ m i)
    → pending_ids m' idx k ≡ pending_ids m idx k
unfolding pending_ids
pending_ids-congr m m' idx zero e = refl
pending_ids-congr m m' idx (suc k) e =
    ground (arith, e (idx + 1), pending_ids-congr m m' (idx + 1) k (λ i h. e i (omega arith)))

pub skips-congr :
    (env : Env) (admin : ℕ) (m m' : ℕ → Option Position) (idx k : ℕ)
    → ((i : ℕ) → idx < i → m' i ≡ m i)
    → skips env admin m' idx k ≡ skips env admin m idx k
unfolding skips
skips-congr env admin m m' idx zero e = refl
skips-congr env admin m m' idx (suc k) e =
    ground (arith, e (idx + 1), skips-congr env admin m m' (idx + 1) k (λ i h. e i (omega arith)))

-- Sweeping one position more: first the next position alone, then the others.
pub swept_next-pending :
    (now idx k : ℕ) (m : (j : Key) → Option (Value j)) (p : Position)
    → m (pos_key (idx + 1)) ≡ some p
    → p.status ≡ PositionStatus.pending
    → (j : Key)
    → swept now
        (idx + 1)
        k
        (assign
          (pos_key (idx + 1))
          (some (record p { status = PositionStatus.advanced; advanced_at = some now }))
          m)
        j
      ≡ swept now idx (suc k) m j
swept_next-pending now idx k m p at w (pos_key i) = ground arith
swept_next-pending now idx k m p at w config_key = refl
swept_next-pending now idx k m p at w _ = refl

pub swept_next-other :
    (now idx k : ℕ) (m : (j : Key) → Option (Value j)) (p : Position)
    → m (pos_key (idx + 1)) ≡ some p
    → is_pending p.status ≡ false
    → (j : Key) → swept now (idx + 1) k m j ≡ swept now idx (suc k) m j
swept_next-other now idx k m p at w (pos_key i) = ground arith
swept_next-other now idx k m p at w config_key = refl
swept_next-other now idx k m p at w _ = refl

pub swept_none :
    (now idx : ℕ) (m : (j : Key) → Option (Value j)) (j : Key) → m j ≡ swept now idx 0 m j
swept_none now idx m (pos_key i) = ground arith
swept_none now idx m config_key = refl
swept_none now idx m _ = refl

-- Where a position of the swept storage comes from.
abbrev pub SweptFrom : ℕ → ℕ → ℕ → ℕ → Position → Position → Type 0
SweptFrom now idx k i q p =
    ((p ≡ q) × ((idx < i) × (i ≤ idx + k) → is_pending q.status ≡ false))
    ⊎ ((idx < i)
        × (i ≤ idx + k)
        × (q.status ≡ PositionStatus.pending)
        × (p ≡ record q { status = PositionStatus.advanced; advanced_at = some now }))

pub swept-from :
    (now idx k i : ℕ) (m : (j : Key) → Option (Value j)) (p : Position)
    → swept now idx k m (pos_key i) ≡ some p
    → (q : Position) × (m (pos_key i) ≡ some q) × SweptFrom now idx k i q p
swept-from now idx k i m p h = ground arith
