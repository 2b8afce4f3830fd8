-- ===== src/Queue/Effects/Advance.antt =====
-- What a returned call of `advance` has checked and done.
use native.Mathlib.Numerals.{add-one}
use line_proof.Base.{
  ℕ, ◌+◌, ◌-◌, ◌≡◌, ◌≢◌, refl, sym, ap, ◌∙◌, fun_ext, ◌⊎◌, inl, inr, Option, some, ◌&&◌, not, List,
  [], ◌∷◌, ◌++◌, append_assoc, append-nil, arith, min, if◌then◌else◌, is_empty, Bool-cases,
}
use line_proof.Soroban.Schema.{Observed}
use line_proof.Soroban.Program.{Env, ◌>>=◌, returns}
use line_proof.Soroban.Exec.{ok, exec, and_then, exec-bind}
use line_proof.Queue.Types.{
  QueueConfig, QueueStatus, AdvancementRule, Kind, Event, Key, Value, position_event, pos_key,
  config_key, idx_key, schema, assign, is_enrollment_closed,
}
use line_proof.Queue.Advance.{scan, announce, conclude, advance_fifo, advance}
use line_proof.Queue.Invariant.{IsValid, position, cursor, total}
use line_proof.Queue.Effects.Lifecycle.{IsAdmin}
use line_proof.Queue.Sweep.{swept, pending_ids, skips}
use line_proof.Queue.Scan.{scan-sweeps}

-- The `Advanced` events of a batch.
unfoldable pub announced : Env → ℕ → List ℕ → List Event
announced env admin [] = []
announced env admin (id ∷ ids) =
    position_event Kind.advanced id admin env.timestamp ∷ announced env admin ids

announce-publishes :
    (env : Env) (admin : ℕ) (ids : List ℕ) (s : Observed schema)
    → exec (announce env admin ids) s ≡ ok tt (record s { log = s.log ++ announced env admin ids })
unfolding announced
announce-publishes env admin [] s = ap (λ l. ok tt (record s { log = l })) (sym (append-nil s.log))
announce-publishes env admin (id ∷ ids) s =
    announce-publishes env admin ids _
    ∙ ap (λ l. ok tt (record s { log = l })) (append_assoc s.log _ (announced env admin ids))

announce_then :
    (env : Env) (admin : ℕ) (ids done : List ℕ) (s : Observed schema)
    → exec (announce env admin ids >>= λ _. returns done) s
      ≡ ok done (record s { log = s.log ++ announced env admin ids })
announce_then env admin ids done s =
    exec-bind (announce env admin ids) (λ _. returns done) s
    ∙ ap (λ r. and_then r (λ _ t. ok done t)) (announce-publishes env admin ids s)

-- The positions that a batch of `batch_size` looks at.
abbrev pub reach : Observed schema → ℕ → ℕ
reach s batch_size = min batch_size (total s - cursor s)

-- The ids that it advances.
abbrev pub due : Observed schema → ℕ → List ℕ
due s batch_size = pending_ids (position s) (cursor s) (reach s batch_size)

-- The configuration after a batch: the first one that advances a position activates the queue.
abbrev pub activated : QueueConfig → List ℕ → QueueConfig
activated c ids =
    if not (is_empty ids) && is_enrollment_closed c.status
    then record c { status = QueueStatus.advancement_active }
    else c

abbrev pub served : Env → ℕ → ℕ → QueueConfig → Observed schema → Observed schema
served env admin batch_size c s = record {
  slots = assign config_key (some (activated c (due s batch_size))) (
      assign idx_key (some (cursor s + reach s batch_size))
        (swept env.timestamp (cursor s) (reach s batch_size) s.slots));
  log =
      (s.log ++ skips env admin (position s) (cursor s) (reach s batch_size))
      ++ announced env admin (due s batch_size);
}

-- Storing the configuration that is stored already changes nothing.
config_again :
    (m : (j : Key) → Option (Value j)) (c : QueueConfig)
    → m config_key ≡ some c
    → (j : Key) → m j ≡ assign config_key (some c) m j
config_again m c at config_key = at
config_again m c at (pos_key i) = refl
config_again m c at _ = refl

conclude-runs :
    (env : Env) (admin idx : ℕ) (done : List ℕ) (c : QueueConfig) (s : Observed schema)
    → s.slots config_key ≡ some c
    → exec (conclude env admin c (idx, done)) s
      ≡ ok done (record {
        slots = assign config_key (some (activated c done)) (assign idx_key (some idx) s.slots);
        log = s.log ++ announced env admin done;
      })
conclude-runs env admin idx done c s at =
    elim (Bool-cases (not (is_empty done) && is_enrollment_closed c.status)) [
      | inl e ↦ rw e (announce_then env admin done done _)
      | inr e ↦ rw e (
          announce_then env admin done done _ ∙ (λ i. ok done (record {
            slots = fun_ext (config_again (assign idx_key (some idx) s.slots) c at) i;
            log = s.log ++ announced env admin done;
          })))
    ]

pub advance_fifo-runs :
    (env : Env) (admin batch_size : ℕ) (c : QueueConfig) (s : Observed schema)
    → IsValid s
    → s.slots config_key ≡ some c
    → exec (advance_fifo env admin batch_size c) s
      ≡ ok (due s batch_size) (served env admin batch_size c s)
unfolding advance_fifo
advance_fifo-runs env admin batch_size c s v at =
    exec-bind (scan batch_size env admin (total s) (cursor s) []) (conclude env admin c) s
    ∙ ap (λ r. and_then r (λ a t. exec (conclude env admin c a) t))
        (scan-sweeps batch_size env admin (total s) (cursor s) [] s
          (omega (arith, v.word, v.started)) (λ i low high. rw add-one (v.filled i high)))
    ∙ conclude-runs env admin (cursor s + reach s batch_size) (due s batch_size) c
        (record {
          slots = swept env.timestamp (cursor s) (reach s batch_size) s.slots;
          log = s.log ++ skips env admin (position s) (cursor s) (reach s batch_size);
        })
        at

-- Who may advance, and when.
abbrev pub MayAdvance : Env → ℕ → ℕ → QueueConfig → Observed schema → Type 0
MayAdvance env admin batch_size c s =
    (batch_size ≢ 0)
    × IsAdmin env s admin c
    × ((c.status ≡ QueueStatus.enrollment_closed) ⊎ (c.status ≡ QueueStatus.advancement_active))
    × (c.advancement_rule ≡ AdvancementRule.fifo)

advance_guards :
    (env : Env) (admin batch_size : ℕ) (s s' : Observed schema) (ids : List ℕ)
    → exec (advance env admin batch_size) s ≡ ok ids s'
    → (c : QueueConfig) × MayAdvance env admin batch_size c s
      × (exec (advance_fifo env admin batch_size c) s ≡ ok ids s')
unfolding advance
advance_guards env admin batch_size s s' ids h = ground arith

-- On well-formed storage, for the signed admin, a batch size that is not zero, a queue whose
-- enrollment is closed or whose advancement is active, and the FIFO rule, `advance` returns: the ids
-- of the pending positions among the next `batch_size` after the cursor; those positions are
-- advanced at the time of the call, the cursor has moved over all it looked at, the events are those
-- of the cancelled positions passed over and of the positions advanced, and the queue is active if
-- a position was advanced.
pub advance-runs :
    (env : Env) (admin batch_size : ℕ) (c : QueueConfig) (s : Observed schema)
    → IsValid s
    → MayAdvance env admin batch_size c s
    → exec (advance env admin batch_size) s
      ≡ ok (due s batch_size) (served env admin batch_size c s)
unfolding advance
advance-runs env admin batch_size c s v may =
    ground (arith, advance_fifo-runs env admin batch_size c s v may.1.0)

pub advance-ok :
    (env : Env) (admin batch_size : ℕ) (s s' : Observed schema) (ids : List ℕ)
    → IsValid s
    → exec (advance env admin batch_size) s ≡ ok ids s'
    → (c : QueueConfig) × MayAdvance env admin batch_size c s
      × (ids ≡ due s batch_size)
      × (s' ≡ served env admin batch_size c s)
advance-ok env admin batch_size s s' ids v h =
    let (c, may, ran) = advance_guards env admin batch_size s s' ids h in
    let runs = advance_fifo-runs env admin batch_size c s v may.1.0 in (c, may, cc runs, cc runs)
