-- ===== src/Queue/Audit.antt =====
-- The positions of a queue contract as an auditor rebuilds them from its events.
use line_proof.Base.{
  ℕ, zero, suc, ◌+◌, ◌≡◌, refl, sym, ap, subst, ◌∙◌, Option, none, some, List, [], ◌∷◌, ◌++◌, ◌&&◌,
  arith, ltb, leb, ◌==◌, if◌then◌else◌, Bool-cases, inl, inr, fun_ext,
}
use line_proof.Soroban.Schema.{Observed}
use line_proof.Soroban.Program.{Env}
use line_proof.Soroban.Exec.{blank}
use line_proof.Queue.Types.{
  QueueConfig, QueueStatus, Position, PositionStatus, Kind, Event, position_event,
  ownership_transferred, schema,
}
use line_proof.Queue.Calls.{Reach, set_up, later}
use line_proof.Queue.Changes.{
  Moves, opens, ends, shuts, Lapses, Change, propose, accept, move, join, leave, serve, lapse, note,
  renumber, invoke-Change,
}
use line_proof.Queue.Effects.Admin.{begun, initialize-ok}
use line_proof.Queue.Effects.Positions.{lapsed, joined, left}
use line_proof.Queue.Effects.Advance.{served, reach, announced}
use line_proof.Queue.Sweep.{bump, waits, pending_ids, pending_ids-congr, skips}
use line_proof.Queue.Invariant.{position, cursor, next_id}
use line_proof.Queue.Histories.{history-IsValid}

-- A log as an auditor reads it, from the positions rebuilt so far.
abbrev pub Ledger : Type 0
Ledger = ℕ → Option Position

abbrev pub entered : ℕ → ℕ → ℕ → Position
entered id identity time = record {
  position_id = id;
  enrolled_at = time;
  identity = identity;
  status = PositionStatus.pending;
  advanced_at = none;
  priority_weight = none;
}

abbrev pub end_at : PositionStatus → Option Position → Option Position
end_at status none = none
end_at status (some p) = some (record p { status = status })

abbrev pub move_up : ℕ → Option Position → Option Position
move_up time none = none
move_up time (some p) =
    some (record p { status = PositionStatus.advanced; advanced_at = some time })

-- One event.
abbrev pub apply : Event → Ledger → Ledger
apply (position_event Kind.enrolled id identity time) m i =
    if id == i then some (entered id identity time) else m i
apply (position_event Kind.cancelled id identity time) m i =
    if id == i then end_at PositionStatus.cancelled (m i) else m i
apply (position_event Kind.advanced id identity time) m i =
    if id == i then move_up time (m i) else m i
apply (position_event Kind.expired id identity time) m i =
    if id == i then end_at PositionStatus.expired (m i) else m i
apply (position_event _ id identity time) m i = m i
apply (ownership_transferred previous proposed) m i = m i

unfoldable pub replay_from : Ledger → List Event → Ledger
replay_from m [] = m
replay_from m (e ∷ es) = replay_from (apply e m) es

-- The positions that the whole log accounts for.
abbrev pub replay : List Event → Ledger
replay = replay_from (λ i. none)

replay_from-append :
    (m : Ledger) (l l' : List Event) → replay_from m (l ++ l') ≡ replay_from (replay_from m l) l'
unfolding replay_from
replay_from-append m [] l' = refl
replay_from-append m (e ∷ l) l' = replay_from-append (apply e m) l l'

replay-snoc : (l : List Event) (e : Event) → replay (l ++ e ∷ []) ≡ apply e (replay l)
unfolding replay_from
replay-snoc l e = replay_from-append (λ i. none) l (e ∷ [])

-- `Skipped` events say nothing new.
replay_from-skips :
    (env : Env) (admin : ℕ) (m n : Ledger) (idx k : ℕ) → replay_from m (skips env admin n idx k) ≡ m
unfolding replay_from skips
replay_from-skips env admin m n idx zero = refl
replay_from-skips env admin m n idx (suc k) =
    ground (arith, replay_from-skips env admin m n (idx + 1) k)

-- The `Advanced` events of a batch are the batch.
replay_from-announced :
    (env : Env) (admin : ℕ) (m : Ledger) (idx k i : ℕ)
    → replay_from m (announced env admin (pending_ids m idx k)) i
      ≡ (if ltb idx i && leb i (idx + k) then bump env.timestamp (m i) else m i)
unfolding replay_from announced pending_ids
replay_from-announced env admin m idx zero i = ground arith
replay_from-announced env admin m idx (suc k) i = elim (Bool-cases (waits (m (idx + 1)))) [
  | inl e ↦
      let m' : Ledger = apply (position_event Kind.advanced (idx + 1) admin env.timestamp) m in
      let same = pending_ids-congr m m' (idx + 1) k (λ j h. ground arith) in
      rw (e, ← same) (replay_from-announced env admin m' (idx + 1) k i ∙ ground arith)
  | inr e ↦ rw e (replay_from-announced env admin m (idx + 1) k i ∙ ground arith)
]

-- The log accounts for every position.
abbrev pub IsAudited : Observed schema → Type 0
IsAudited s = (i : ℕ) → replay s.log i ≡ position s i

abbrev logged : Observed schema → List Event
logged s = s.log

-- An event that says nothing of positions, where none changes.
silent :
    (s s' : Observed schema) (e : Event)
    → s'.log ≡ s.log ++ e ∷ []
    → ((m : Ledger) (i : ℕ) → apply e m i ≡ m i)
    → ((i : ℕ) → position s' i ≡ position s i)
    → IsAudited s
    → IsAudited s'
silent s s' e l quiet same a i =
    rw (l, replay-snoc s.log e, quiet (replay s.log) i) (a i ∙ sym (same i))

Moves-quiet :
    {a b : QueueStatus} {kind : Kind} (admin time : ℕ)
    → Moves a b kind
    → (m : Ledger) (i : ℕ) → apply (position_event kind 0 admin time) m i ≡ m i
Moves-quiet admin time opens m i = refl
Moves-quiet admin time ends m i = refl
Moves-quiet admin time (shuts f) m i = refl

joined-IsAudited :
    (env : Env) (identity : ℕ) (s : Observed schema)
    → IsAudited s
    → IsAudited (joined env identity s)
joined-IsAudited env identity s a i =
    rw (replay-snoc s.log (position_event Kind.enrolled (next_id s) identity env.timestamp))
      (ground (arith, a i))

left-IsAudited :
    (env : Env) (identity id : ℕ) (p : Position) (s : Observed schema)
    → position s id ≡ some p
    → IsAudited s
    → IsAudited (left env identity id p s)
left-IsAudited env identity id p s at a i =
    rw (replay-snoc s.log (position_event Kind.cancelled id identity env.timestamp))
      (ground (arith, a i))

lapsed-IsAudited :
    (env : Env) (admin id : ℕ) (p : Position) (s : Observed schema)
    → position s id ≡ some p
    → IsAudited s
    → IsAudited (lapsed env admin id p s)
lapsed-IsAudited env admin id p s at a i =
    rw (replay-snoc s.log (position_event Kind.expired id admin env.timestamp))
      (ground (arith, a i))

Lapses-IsAudited :
    (env : Env) (admin : ℕ) (ids : List ℕ) (s s' : Observed schema)
    → Lapses env admin ids s s'
    → IsAudited s
    → IsAudited s'
Lapses-IsAudited env admin [] s s' same a = subst IsAudited (sym same) a
Lapses-IsAudited env admin (id ∷ ids) s s' (p, at, wait, rest) a =
    Lapses-IsAudited env admin ids (lapsed env admin id p s) s' rest
      (lapsed-IsAudited env admin id p s at a)

served-IsAudited :
    (env : Env) (admin batch_size : ℕ) (c : QueueConfig) (s : Observed schema)
    → IsAudited s
    → IsAudited (served env admin batch_size c s)
served-IsAudited env admin batch_size c s a i =
    let k = reach s batch_size in
    let passed_over = skips env admin (position s) (cursor s) k in
    let full : replay s.log ≡ position s = fun_ext a in
    rw
      (replay_from-append (λ j. none) (s.log ++ passed_over)
        (announced env admin (pending_ids (position s) (cursor s) k)))
      (rw (replay_from-append (λ j. none) s.log passed_over) (
        rw (full, replay_from-skips env admin (position s) (position s) (cursor s) k)
          (replay_from-announced env admin (position s) (cursor s) k i)))

Change-IsAudited :
    (env : Env) (s s' : Observed schema) → Change env s s' → IsAudited s → IsAudited s'
Change-IsAudited env s s' (propose admin proposed c right after) a = subst IsAudited (sym after) a
Change-IsAudited env s s' (accept proposed c at waiting signed after) a =
    silent s s' _ (ap logged after) (λ m i. refl)
      (λ i. ap (λ (t : Observed schema). position t i) after) a
Change-IsAudited env s s' (move admin c status kind right moves after) a =
    silent s s' _ (ap logged after) (Moves-quiet admin env.timestamp moves)
      (λ i. ap (λ (t : Observed schema). position t i) after) a
Change-IsAudited env s s' (join identity c at signed opened room fits after) a =
    subst IsAudited (sym after) (joined-IsAudited env identity s a)
Change-IsAudited env s s' (leave identity id p at signed own wait after) a =
    subst IsAudited (sym after) (left-IsAudited env identity id p s at a)
Change-IsAudited env s s' (serve admin batch_size c may after) a =
    subst IsAudited (sym after) (served-IsAudited env admin batch_size c s a)
Change-IsAudited env s s' (lapse admin ids c right expiring lapses) a =
    Lapses-IsAudited env admin ids s s' lapses a
Change-IsAudited env s s' (note admin c right after) a =
    silent s s' _ (ap logged after) (λ m i. refl)
      (λ i. ap (λ (t : Observed schema). position t i) after) a
Change-IsAudited env s s' (renumber admin from to c right was up after) a =
    silent s s' _ (ap logged after) (λ m i. refl)
      (λ i. ap (λ (t : Observed schema). position t i) after) a

begun-IsAudited : (admin : ℕ) (config : QueueConfig) → IsAudited (begun admin config blank)
unfolding replay_from
begun-IsAudited admin config i = refl

history-IsAudited : {n : ℕ} {s : Observed schema} → Reach n s → n ≡ 0 → IsAudited s
history-IsAudited {s} (set_up env admin config h) once =
    let (_, _, after) = initialize-ok env admin config blank s h in
    subst IsAudited (sym after) (begun-IsAudited admin config)
history-IsAudited (later {n} {s} {s'} env call r h) once =
    let first : n ≡ 0 = omega (arith, once) in
    Change-IsAudited env s s'
      (invoke-Change env call s s' (history-IsValid r first) (omega (arith, once)) h)
      (history-IsAudited r first)

-- In every history in which the contract is not set up a second time, replaying the published events
-- gives, at every id, exactly the stored position: its holder, times and status, or that there is
-- none.
pub Reach-IsAudited : (s : Observed schema) → Reach 0 s → (i : ℕ) → replay s.log i ≡ position s i
Reach-IsAudited s r = history-IsAudited r refl
